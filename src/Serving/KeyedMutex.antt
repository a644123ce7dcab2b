-- ===== src/Serving/KeyedMutex.antt =====
-- serving/keyedmutex.go: `keyedMutex`. A section under `k.mu` is one step, and so is each call of
-- `Lock` and of `Unlock` on the mutex of a `refLock`; between any two of them other threads may run.
pub mod Invariant
pub mod Moves
pub mod Exclusion
use dataverse_hub.Base.{
  ℕ, zero, suc, ◌+◌, ◌-◌, Bool, true, false, not, Option, none, some, List, [], ◌∷◌, ◌++◌, Bytes,
  ◌≡◌, eqb, if◌then◌else◌, option_else,
}
use dataverse_hub.Base.Dict.{Dict, lookup, insert, erase}

-- `refLock`; its mutex is found by `id`, which stands for the pointer
pub record RefLock : Type 0 where
  pub id : ℕ
  pub waiters : ℕ

-- `locks`, and which mutexes are locked; `next` is a pointer that was never given out
pub record Locks : Type 0 where
  pub locks : Dict RefLock
  pub locked : ℕ → Bool
  pub next : ℕ

-- `newKeyedMutex`
abbrev pub new_keyed_mutex : Locks
new_keyed_mutex = record { locks = []; locked = λ id. false; next = 0 }

abbrev pub set_locked : ℕ → Bool → Locks → Locks
set_locked id b l = record l { locked = λ j. if eqb j id then b else l.locked j }

-- `Lock` under `k.mu`: the pointer that it goes on with
unfoldable pub enter : Bytes → Locks → ℕ × Locks
enter key l =
    option_else (lookup key l.locks)
      (
        l.next,
        record l {
          locks = insert key (record { id = l.next; waiters = 1 }) l.locks;
          next = suc l.next;
        },
      )
      λ r. (r.id, record l { locks = insert key (record r { waiters = suc r.waiters }) l.locks })

-- `Unlock` under `k.mu`; `none` is the panic
unfoldable pub leave : Bytes → Locks → Option (ℕ × Locks)
leave key l = option_else (lookup key l.locks) none λ r. some (
  r.id,
  record l {
    locks =
        if eqb (r.waiters - 1) 0
        then erase key l.locks
        else insert key (record r { waiters = r.waiters - 1 }) l.locks;
  },
)

-- where a thread stands: outside, in `Lock` before `l.mu.Lock()`, in its critical section, in
-- `Unlock` before `l.mu.Unlock()`
pub data Phase : Type 0 where
  idle panicked : Phase
  waiting holding : Bytes → ℕ → Phase
  releasing : ℕ → Phase

-- The next step of a thread, which chooses a key if it is outside; `none` is that it is blocked.
unfoldable pub turn : Bytes → Phase → Locks → Option (Phase × Locks)
turn key idle l = some (waiting key (enter key l).0, (enter key l).1)
turn key panicked l = none
turn key (waiting k id) l = if l.locked id then none else some (holding k id, set_locked id true l)
turn key (holding k id) l =
    option_else (leave k l) (some (panicked, l)) λ r. some (releasing r.0, r.1)
turn key (releasing id) l = some (idle, set_locked id false l)

pub record System : Type 0 where
  pub locks : Locks
  pub threads : List Phase

-- One thread takes its next step.
pub data Step (s t : System) : Type 0 where
  step :
      (before after : List Phase) (key : Bytes) (p q : Phase)
      → s.threads ≡ before ++ p ∷ after
      → turn key p s.locks ≡ some (q, t.locks)
      → t.threads ≡ before ++ q ∷ after
      → Step s t

abbrev pub all_idle : ℕ → List Phase
all_idle zero = []
all_idle (suc n) = idle ∷ all_idle n

abbrev pub start : ℕ → System
start n = record { locks = new_keyed_mutex; threads = all_idle n }

-- What `n` threads reach by steps in any order.
pub data Reach (n : ℕ) : System → Type 0 where
  begin : Reach n (start n)
  later : {s t : System} → Reach n s → Step s t → Reach n t
