-- ===== src/Tests/Threads.antt =====
-- serving/keyedmutex.go at concrete inputs: two threads write to one key.
use dataverse_hub.Base.{◌≤◌, ◌⊎◌, refl, true, [], ◌∷◌, bytes, ◌==◌}
use dataverse_hub.Base.Dict.{lookup, insert, erase}
use dataverse_hub.Serving.KeyedMutex.{
  System, idle, waiting, holding, turn, enter, set_locked, new_keyed_mutex, step, Reach, begin,
  later,
}
use dataverse_hub.Serving.KeyedMutex.Invariant.{total}
use dataverse_hub.Serving.KeyedMutex.Exclusion.{Owner, CanGo, inside, mutual_exclusion, no_deadlock}

-- the first thread enters `Lock`, then the second, then the first one gets the mutex
abbrev one_waits : System
one_waits = record {
  locks = (enter (bytes "k") new_keyed_mutex).1;
  threads = waiting (bytes "k") 0 ∷ idle ∷ [];
}

abbrev both_wait : System
both_wait = record {
  locks = (enter (bytes "k") one_waits.locks).1;
  threads = waiting (bytes "k") 0 ∷ waiting (bytes "k") 0 ∷ [];
}

abbrev one_holds : System
one_holds = record {
  locks = set_locked 0 true both_wait.locks;
  threads = holding (bytes "k") 0 ∷ waiting (bytes "k") 0 ∷ [];
}

one_waits-reached : Reach 2 one_waits
unfolding turn enter lookup insert erase
one_waits-reached =
    later begin (step [] (idle ∷ []) (bytes "k") idle (waiting (bytes "k") 0) refl refl refl)

both_wait-reached : Reach 2 both_wait
unfolding turn enter lookup insert erase ◌==◌
both_wait-reached =
    later one_waits-reached
      (step (waiting (bytes "k") 0 ∷ []) [] (bytes "k") idle (waiting (bytes "k") 0) refl refl refl)

one_holds-reached : Reach 2 one_holds
unfolding turn enter lookup insert erase ◌==◌
one_holds-reached = later both_wait-reached (
    step [] (waiting (bytes "k") 0 ∷ []) (bytes "k") (waiting (bytes "k") 0) (holding (bytes "k") 0)
      refl refl refl)

mutual_exclusion_example : total (inside (bytes "k")) one_holds.threads ≤ 1
mutual_exclusion_example = mutual_exclusion one_holds-reached (bytes "k")

no_deadlock_example :
    CanGo (bytes "k") (waiting (bytes "k") 0) one_holds.locks
    ⊎ ((o : Owner one_holds 0) × CanGo (bytes "k") o.owner one_holds.locks)
no_deadlock_example =
    no_deadlock one_holds-reached (holding (bytes "k") 0 ∷ []) [] (bytes "k") 0 refl
