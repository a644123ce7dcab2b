-- ===== src/Serving/KeyedMutex/Exclusion.antt =====
-- serving/keyedmutex.go: what the lock promises to the handlers that write.
use dataverse_hub.Base.{
  ℕ, ◌≤◌, ◌<◌, ◌≡◌, ◌⊎◌, refl, ap, true, false, none, some, List, [], ◌∷◌, ◌++◌, Bytes, ◌==◌,
  eq_iff, arith, eqb, ◌≢◌, all, if◌then◌else◌, Bool-cases, Option-cases, inl, inr, subst,
}
use dataverse_hub.Base.Dict.{Dict, lookup}
use dataverse_hub.Serving.KeyedMutex.{
  RefLock, Locks, Phase, idle, panicked, waiting, holding, releasing, turn, set_locked, System,
  Reach,
}
use dataverse_hub.Serving.KeyedMutex.Invariant.{uses, owns, total, is_known, Inv}
use dataverse_hub.Serving.KeyedMutex.Moves.{Reach-Inv, leaves-Inv}

-- 1 for a thread in the critical section of the key.
abbrev pub inside : Bytes → Phase → ℕ
inside key (holding k id) = if k == key then 1 else 0
inside key idle = 0
inside key panicked = 0
inside key (waiting k id) = 0
inside key (releasing id) = 0

inside-owns :
    (key : Bytes) (r : RefLock) (m : Dict RefLock) (ps : List Phase)
    → lookup key m ≡ some r
    → all (is_known m) ps ≡ true
    → total (inside key) ps ≤ total (owns r.id) ps
inside-owns key r m [] e h = omega arith
inside-owns key r m (idle ∷ ps) e h = ground (arith, inside-owns key r m ps e)
inside-owns key r m (panicked ∷ ps) e h = ground arith
inside-owns key r m (waiting k id ∷ ps) e h = ground (arith, inside-owns key r m ps e)
inside-owns key r m (holding k id ∷ ps) e h =
    ground (arith, e, eq_iff k key, inside-owns key r m ps e)
inside-owns key r m (releasing id ∷ ps) e h = ground (arith, inside-owns key r m ps e)

inside-uses : (key : Bytes) (ps : List Phase) → total (inside key) ps ≤ total (uses key) ps
inside-uses key [] = omega arith
inside-uses key (idle ∷ ps) = omega (arith, inside-uses key ps)
inside-uses key (panicked ∷ ps) = omega (arith, inside-uses key ps)
inside-uses key (waiting k id ∷ ps) = omega (arith, inside-uses key ps)
inside-uses key (holding k id ∷ ps) = omega (arith, inside-uses key ps)
inside-uses key (releasing id ∷ ps) = omega (arith, inside-uses key ps)

-- Whatever the number of threads and the order of their steps, at most one thread at a time is
-- between `Lock` and `Unlock` on a key.
pub mutual_exclusion :
    {n : ℕ} {s : System} → Reach n s → (key : Bytes) → total (inside key) s.threads ≤ 1
mutual_exclusion {s = s} reach key =
    let v = Reach-Inv reach in
    elim (Option-cases (lookup key s.locks.locks)) [
      | inl n ↦ ground (arith, n, v.counted key, inside-uses key s.threads)
      | inr (r, e) ↦
          ground (arith, v.owned r.id, inside-owns key r s.locks.locks s.threads e v.known)
    ]

-- A thread that has the mutex, and its place.
pub record Owner (s : System) (id : ℕ) : Type 0 where
  pub before : List Phase
  pub owner : Phase
  pub after : List Phase
  pub here : s.threads ≡ before ++ owner ∷ after
  pub has : owns id owner ≡ 1

owns-other : (id : ℕ) (p : Phase) → eqb (owns id p) 1 ≡ false → owns id p ≡ 0
owns-other id idle h = refl
owns-other id panicked h = refl
owns-other id (waiting k j) h = refl
owns-other id (holding k j) h = ground arith
owns-other id (releasing j) h = ground arith

find_owner :
    (id : ℕ) (ps : List Phase)
    → 0 < total (owns id) ps
    → (before : List Phase) × ((p : Phase) × ((after : List Phase) × (ps ≡ before ++ p ∷ after)
          × (owns id p ≡ 1)))
find_owner id [] h = absurd (omega arith)
find_owner id (p ∷ ps) h = elim (Bool-cases (eqb (owns id p) 1)) [
  | inl e ↦ ([], (p, (ps, refl, ground arith)))
  | inr e ↦
      let (before, (q, (after, at, has))) = find_owner id ps (omega (arith, owns-other id p e)) in
      (p ∷ before, (q, (after, ap (◌∷◌ p) at, has)))
]

-- The thread is not blocked, and its next step does not panic.
abbrev pub CanGo : Bytes → Phase → Locks → Type 0
CanGo key p l = (q : Phase) × (l' : Locks) × (turn key p l ≡ some (q, l')) × (q ≢ panicked)

owner_moves :
    (before after : List Phase) (key : Bytes) (id : ℕ) (p : Phase) (l : Locks)
    → Inv (record { locks = l; threads = before ++ p ∷ after })
    → owns id p ≡ 1
    → CanGo key p l
unfolding turn
owner_moves before after key id idle l v h = absurd (ground arith)
owner_moves before after key id panicked l v h = absurd (ground arith)
owner_moves before after key id (waiting k j) l v h = absurd (ground arith)
owner_moves before after key id (holding k j) l v h =
    let (r, e, w) = leaves-Inv before after k j l v in (releasing r.0, r.1, rw e refl, λ x. cc)
owner_moves before after key id (releasing j) l v h = (idle, set_locked j false l, refl, λ x. cc)

-- A thread that waits can go on at once, or another thread has the mutex, and that thread can take its
-- next step: it is not blocked, and the step, also that of `Unlock` under `k.mu`, does not panic.
pub no_deadlock :
    {n : ℕ} {s : System}
    → Reach n s
    → (before after : List Phase) (key : Bytes) (id : ℕ)
    → s.threads ≡ before ++ waiting key id ∷ after
    → CanGo key (waiting key id) s.locks ⊎ ((o : Owner s id) × CanGo key o.owner s.locks)
unfolding turn
no_deadlock {s = s} reach before after key id at =
    let v = Reach-Inv reach in
    elim (Bool-cases (s.locks.locked id)) [
      | inr free ↦ inl (holding key id, set_locked id true s.locks, rw free refl, λ x. cc)
      | inl taken ↦
          let (b, (p, (a, here, has))) =
            find_owner id s.threads (ground (arith, taken, v.owned id)) in
          inr (
            record { before = b; owner = p; after = a; here = here; has = has },
            owner_moves b a key id p s.locks
                (subst (λ ts. Inv (record { locks = s.locks; threads = ts })) here v) has,
          )
    ]

-- When no thread uses a key, the map has no entry for it: idle keys are dropped.
pub lookup-unused :
    {n : ℕ} {s : System}
    → Reach n s
    → (key : Bytes) → total (uses key) s.threads ≡ 0
    → lookup key s.locks.locks ≡ none
lookup-unused {s = s} reach key h =
    let v = Reach-Inv reach in
    elim (Option-cases (lookup key s.locks.locks)) [
      | inl n ↦ n
      | inr (r, e) ↦ absurd (ground (arith, e, v.counted key, v.used key r e))
    ]
