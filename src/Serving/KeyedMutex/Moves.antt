-- ===== src/Serving/KeyedMutex/Moves.antt =====
-- serving/keyedmutex.go: every step keeps the invariant.
use mathlib.Core.Option.{some-injective}
use dataverse_hub.Base.{
  ℕ, suc, ◌-◌, ◌≡◌, ◌⊎◌, refl, sym, ◌∙◌, true, false, some, List, ◌∷◌, ◌++◌, Bytes, eq_iff, eq_refl,
  arith, eqb, all-append, if◌then◌else◌, Bool-cases, Option-cases, inl, inr, subst, if-inv,
}
use dataverse_hub.Base.Dict.{lookup, insert, erase, lookup-insert, lookup-erase}
use dataverse_hub.Serving.KeyedMutex.{
  RefLock, Locks, Phase, idle, panicked, waiting, holding, releasing, enter, leave, turn,
  set_locked, System, Step, step, start, Reach, begin, later,
}
use dataverse_hub.Serving.KeyedMutex.Invariant.{
  uses, owns, total, total-append, points_to, is_known, waiters_of, Inv, known-insert, known-erase,
  all_idle_known, all_idle_none,
}

-- The invariant of a thread between two groups of others.
abbrev pub At : List Phase → List Phase → Phase → Locks → Type 0
At before after p l = Inv (record { locks = l; threads = before ++ p ∷ after })

module _ (before after : List Phase) where
  releases-Inv :
      (id : ℕ) (l : Locks)
      → At before after (releasing id) l
      → At before after idle (set_locked id false l)
  releases-Inv id l v = record {
    known =
        all-append (is_known l.locks) before (idle ∷ after)
        ∙ ground (arith, v.known, all-append (is_known l.locks) before (releasing id ∷ after));
    counted = λ key. omega (
      arith,
      v.counted key,
      total-append (uses key) before (releasing id ∷ after),
      total-append (uses key) before (idle ∷ after),
    );
    used = v.used;
    owned = λ j. ground (
      arith,
      v.owned j,
      total-append (owns j) before (releasing id ∷ after),
      total-append (owns j) before (idle ∷ after),
    );
  }

  acquires-Inv :
      (k : Bytes) (id : ℕ) (l : Locks)
      → l.locked id ≡ false
      → At before after (waiting k id) l
      → At before after (holding k id) (set_locked id true l)
  acquires-Inv k id l free v = record {
    known =
        all-append (is_known l.locks) before (holding k id ∷ after)
        ∙ ground (arith, v.known, all-append (is_known l.locks) before (waiting k id ∷ after));
    counted = λ key. omega (
      arith,
      v.counted key,
      total-append (uses key) before (waiting k id ∷ after),
      total-append (uses key) before (holding k id ∷ after),
    );
    used = v.used;
    owned = λ j. ground (
      arith,
      free,
      v.owned j,
      total-append (owns j) before (waiting k id ∷ after),
      total-append (owns j) before (holding k id ∷ after),
    );
  }

  counts_nobody :
      (key : Bytes) (q : Phase) (m : ℕ)
      → total (uses key) (before ++ q ∷ after) ≡ m
      → m ≡ uses key q
      → (total (uses key) before ≡ 0) × (total (uses key) after ≡ 0)
  counts_nobody key q m h e = omega (arith, total-append (uses key) before (q ∷ after))

  enters_entry-Inv :
      (key : Bytes) (r : RefLock) (l : Locks) (n : ℕ)
      → At before after idle l
      → (points_to (lookup key l.locks) r.id ≡ true) ⊎ (waiters_of l.locks key ≡ 0)
      → r.waiters ≡ suc (waiters_of l.locks key)
      → At before after (waiting key r.id) (record l { locks = insert key r l.locks; next = n })
  enters_entry-Inv key r l n v c w =
      let quiet = λ (z : waiters_of l.locks key ≡ 0). counts_nobody key idle _ (v.counted key) z in
      let parts = sym (all-append (is_known l.locks) before (idle ∷ after)) ∙ v.known in
      record {
        known =
            all-append (is_known (insert key r l.locks)) before (waiting key r.id ∷ after)
            ∙ ground (
              arith,
              lookup-insert key key r l.locks,
              eq_refl key,
              known-insert key r l.locks before (elim c [ inl y ↦ inl y | inr z ↦ inr (quiet z).0 ])
                  (ground (arith, parts)),
              known-insert key r l.locks after (elim c [ inl y ↦ inl y | inr z ↦ inr (quiet z).1 ])
                  (ground (arith, parts)),
            );
        counted = λ k. ground (
          arith,
          w,
          v.counted k,
          v.counted key,
          lookup-insert key k r l.locks,
          eq_iff key k,
          total-append (uses k) before (idle ∷ after),
          total-append (uses k) before (waiting key r.id ∷ after),
        );
        used = λ k x e. ground (arith, w, e, v.used k x, lookup-insert key k r l.locks);
        owned = λ j. omega (
          arith,
          v.owned j,
          total-append (owns j) before (idle ∷ after),
          total-append (owns j) before (waiting key r.id ∷ after),
        );
      }

  enters-Inv :
      (key : Bytes) (l : Locks)
      → At before after idle l
      → At before after (waiting key (enter key l).0) (enter key l).1
  unfolding enter
  enters-Inv key l v = elim (Option-cases (lookup key l.locks)) [
    | inl n ↦
        rw (n, enter)
          (enters_entry-Inv key (record { id = l.next; waiters = 1 }) l (suc l.next) v (inr (rw n))
            (rw n))
    | inr (r, f) ↦
        rw (f, enter)
          (enters_entry-Inv key (record r { waiters = suc r.waiters }) l l.next v
            (inl (rw f (ground arith))) (rw f))
  ]

  leaves_entry-Inv :
      (key : Bytes) (id : ℕ) (r : RefLock) (l : Locks)
      → At before after (holding key id) l
      → lookup key l.locks ≡ some r
      → r.id ≡ id
      → At before after (releasing r.id) (record l {
        locks =
            if eqb (r.waiters - 1) 0
            then erase key l.locks
            else insert key (record r { waiters = r.waiters - 1 }) l.locks;
      })
  leaves_entry-Inv key id r l v f same =
      let parts = sym (all-append (is_known l.locks) before (holding key id ∷ after)) ∙ v.known in
      elim (Bool-cases (eqb (r.waiters - 1) 0)) [
        | inl last ↦ rw last (
            let (quiet, quiet') =
              counts_nobody key (holding key id) _ (v.counted key)
                (ground (arith, f, last, v.used key r f, eq_refl key)) in
            record {
              known =
                  all-append (is_known (erase key l.locks)) before (releasing r.id ∷ after)
                  ∙ ground (
                    arith,
                    known-erase key l.locks before quiet (ground (arith, parts)),
                    known-erase key l.locks after quiet' (ground (arith, parts)),
                  );
              counted = λ k. ground (
                arith,
                f,
                last,
                v.used key r f,
                v.counted k,
                lookup-erase key k l.locks,
                eq_iff key k,
                total-append (uses k) before (holding key id ∷ after),
                total-append (uses k) before (releasing r.id ∷ after),
              );
              used = λ k x e. ground (arith, e, v.used k x, lookup-erase key k l.locks);
              owned = λ j. ground (
                arith,
                same,
                v.owned j,
                total-append (owns j) before (holding key id ∷ after),
                total-append (owns j) before (releasing r.id ∷ after),
              );
            })
        | inr more ↦ rw more (
            let here : points_to (lookup key l.locks) r.id ≡ true = rw f (ground arith) in
            let left : RefLock = record r { waiters = r.waiters - 1 } in
            record {
              known =
                  all-append (is_known (insert key left l.locks)) before (releasing r.id ∷ after)
                  ∙ ground (
                    arith,
                    known-insert key left l.locks before (inl here) (ground (arith, parts)),
                    known-insert key left l.locks after (inl here) (ground (arith, parts)),
                  );
              counted = λ k. ground (
                arith,
                f,
                more,
                v.counted k,
                lookup-insert key k left l.locks,
                eq_iff key k,
                total-append (uses k) before (holding key id ∷ after),
                total-append (uses k) before (releasing r.id ∷ after),
              );
              used = λ k x e. ground (arith, more, e, v.used k x, lookup-insert key k left l.locks);
              owned = λ j. ground (
                arith,
                same,
                v.owned j,
                total-append (owns j) before (holding key id ∷ after),
                total-append (owns j) before (releasing r.id ∷ after),
              );
            })
      ]

  pub leaves-Inv :
      (key : Bytes) (id : ℕ) (l : Locks)
      → At before after (holding key id) l
      → (r : ℕ × Locks) × (leave key l ≡ some r) × At before after (releasing r.0) r.1
  unfolding leave
  leaves-Inv key id l v = elim (Option-cases (lookup key l.locks)) [
    | inl n ↦
        absurd (
          ground (arith, n, v.known, all-append (is_known l.locks) before (holding key id ∷ after)))
    | inr (r, f) ↦
        let same : eqb r.id id ≡ true =
          ground
            (arith, f, v.known, all-append (is_known l.locks) before (holding key id ∷ after)) in
        (_, rw f refl, leaves_entry-Inv key id r l v f (ground arith))
  ]

  turn-Inv :
      (key : Bytes) (p q : Phase) (l l' : Locks)
      → At before after p l
      → turn key p l ≡ some (q, l')
      → At before after q l'
  unfolding turn
  turn-Inv key idle q l l' v h =
      subst (λ z. At before after z.0 z.1) (some-injective _ _ h) (enters-Inv key l v)
  turn-Inv key panicked q l l' v h = absurd (cc)
  turn-Inv key (waiting k id) q l l' v h =
      let (free, h1) = if-inv (l.locked id) _ _ h (cc) in
      subst (λ z. At before after z.0 z.1) (some-injective _ _ h1) (acquires-Inv k id l free v)
  turn-Inv key (holding k id) q l l' v h =
      let (r, e, w) = leaves-Inv k id l v in
      subst (λ z. At before after z.0 z.1) (some-injective _ _ (rw e at h)) w
  turn-Inv key (releasing id) q l l' v h =
      subst (λ z. At before after z.0 z.1) (some-injective _ _ h) (releases-Inv id l v)

-- Every step of every thread keeps the invariant.
pub step-Inv : {s t : System} → Step s t → Inv s → Inv t
step-Inv {s} {t} (step before after key p q here turns there) v =
    subst (λ ts. Inv (record { locks = t.locks; threads = ts })) (sym there)
      (turn-Inv before after key p q s.locks t.locks
        (subst (λ ts. Inv (record { locks = s.locks; threads = ts })) here v) turns)

start-Inv : (n : ℕ) → Inv (start n)
unfolding lookup
start-Inv n = record {
  known = all_idle_known n;
  counted = λ key. all_idle_none (uses key) n refl;
  used = λ key r e. absurd (cc);
  owned = λ id. all_idle_none (owns id) n refl;
}

pub Reach-Inv : {n : ℕ} {s : System} → Reach n s → Inv s
Reach-Inv {n} begin = start-Inv n
Reach-Inv (later r st) = step-Inv st (Reach-Inv r)
