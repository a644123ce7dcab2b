-- ===== src/Serving/KeyedMutex/Invariant.antt =====
-- serving/keyedmutex.go: what holds between any two steps.
use dataverse_hub.Base.{
  ℕ, zero, suc, ◌+◌, ◌<◌, ◌≡◌, ◌⊎◌, refl, Bool, true, false, Option, none, some, List, [], ◌∷◌,
  ◌++◌, Bytes, ◌==◌, eq_iff, arith, eqb, all, if◌then◌else◌, option_else,
}
use dataverse_hub.Base.Dict.{Dict, lookup, insert, erase, lookup-insert, lookup-erase}
use dataverse_hub.Serving.KeyedMutex.{
  RefLock, Phase, idle, panicked, waiting, holding, releasing, System, all_idle,
}

-- 1 for a thread between its entry to `Lock` and its entry to `Unlock` on the key.
abbrev pub uses : Bytes → Phase → ℕ
uses key (waiting k id) = if k == key then 1 else 0
uses key (holding k id) = if k == key then 1 else 0
uses key idle = 0
uses key panicked = 0
uses key (releasing id) = 0

-- 1 for a thread that has locked the mutex.
abbrev pub owns : ℕ → Phase → ℕ
owns id (holding k j) = if eqb j id then 1 else 0
owns id (releasing j) = if eqb j id then 1 else 0
owns id idle = 0
owns id panicked = 0
owns id (waiting k j) = 0

abbrev pub total : (Phase → ℕ) → List Phase → ℕ
total f [] = 0
total f (p ∷ ps) = f p + total f ps

pub total-append :
    (f : Phase → ℕ) (ps qs : List Phase) → total f (ps ++ qs) ≡ total f ps + total f qs
total-append f [] qs = omega arith
total-append f (p ∷ ps) qs = omega (arith, total-append f ps qs)

abbrev pub points_to : Option RefLock → ℕ → Bool
points_to none id = false
points_to (some r) id = eqb r.id id

-- The pointer of a thread is the one that the map has for its key; and no thread has panicked.
abbrev pub is_known : Dict RefLock → Phase → Bool
is_known m idle = true
is_known m panicked = false
is_known m (waiting k id) = points_to (lookup k m) id
is_known m (holding k id) = points_to (lookup k m) id
is_known m (releasing id) = true

abbrev pub waiters_of : Dict RefLock → Bytes → ℕ
waiters_of m key = option_else (lookup key m) 0 λ r. r.waiters

pub record Inv (s : System) : Type 0 where
  pub known : all (is_known s.locks.locks) s.threads ≡ true
  pub counted : (key : Bytes) → total (uses key) s.threads ≡ waiters_of s.locks.locks key
  pub used : (key : Bytes) (r : RefLock) → lookup key s.locks.locks ≡ some r → 0 < r.waiters
  pub owned : (id : ℕ) → total (owns id) s.threads ≡ (if s.locks.locked id then 1 else 0)

pub known-insert :
    (k : Bytes) (r : RefLock) (m : Dict RefLock) (ps : List Phase)
    → (points_to (lookup k m) r.id ≡ true) ⊎ (total (uses k) ps ≡ 0)
    → all (is_known m) ps ≡ true
    → all (is_known (insert k r m)) ps ≡ true
known-insert k r m [] c h = refl
known-insert k r m (idle ∷ ps) c h = ground (arith, known-insert k r m ps)
known-insert k r m (panicked ∷ ps) c h = ground arith
known-insert k r m (waiting j id ∷ ps) c h =
    ground (arith, known-insert k r m ps, lookup-insert k j r m, eq_iff k j, eq_iff j k)
known-insert k r m (holding j id ∷ ps) c h =
    ground (arith, known-insert k r m ps, lookup-insert k j r m, eq_iff k j, eq_iff j k)
known-insert k r m (releasing id ∷ ps) c h = ground (arith, known-insert k r m ps)

pub known-erase :
    (k : Bytes) (m : Dict RefLock) (ps : List Phase)
    → total (uses k) ps ≡ 0
    → all (is_known m) ps ≡ true
    → all (is_known (erase k m)) ps ≡ true
known-erase k m [] c h = refl
known-erase k m (idle ∷ ps) c h = ground (arith, known-erase k m ps)
known-erase k m (panicked ∷ ps) c h = ground arith
known-erase k m (waiting j id ∷ ps) c h =
    ground (arith, known-erase k m ps, lookup-erase k j m, eq_iff k j, eq_iff j k)
known-erase k m (holding j id ∷ ps) c h =
    ground (arith, known-erase k m ps, lookup-erase k j m, eq_iff k j, eq_iff j k)
known-erase k m (releasing id ∷ ps) c h = ground (arith, known-erase k m ps)

pub all_idle_known : (n : ℕ) → all (is_known []) (all_idle n) ≡ true
all_idle_known zero = refl
all_idle_known (suc n) = all_idle_known n

pub all_idle_none : (f : Phase → ℕ) (n : ℕ) → f idle ≡ 0 → total f (all_idle n) ≡ 0
all_idle_none f zero h = refl
all_idle_none f (suc n) h = omega (arith, h, all_idle_none f n h)
