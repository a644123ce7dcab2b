-- ===== src/Base/Dict.antt =====
-- A Go map with string keys: an association list with one entry for each key. The order of the
-- entries is one that a `range` loop may take; a loop whose result could depend on it says so.
use mathlib.Core.Path.{◌≡◌, refl}
use mathlib.Core.Logic.{inl, inr}
use mathlib.Core.Option.{Option, none, some}
use mathlib.Core.List.{List, [], ◌∷◌}
use native.Mathlib.Omega.{arith}
use dataverse_hub.Base.Tests.{if◌then◌else◌, is_some, Bool-cases}
use dataverse_hub.Base.Text.{Bytes, ◌==◌, eq_iff, eq_refl, contains}

abbrev pub Dict {ℓ} : Type ℓ → Type ℓ
Dict V = List (Bytes × V)

module _ {ℓ} {V : Type ℓ} where
  -- m[k]
  unfoldable pub lookup : Bytes → Dict V → Option V
  lookup k [] = none
  lookup k ((j, v) ∷ m) = if j == k then some v else lookup k m

  -- delete(m, k)
  unfoldable pub erase : Bytes → Dict V → Dict V
  erase k [] = []
  erase k ((j, v) ∷ m) = if j == k then erase k m else (j, v) ∷ erase k m

  -- m[k] = v
  unfoldable pub insert : Bytes → V → Dict V → Dict V
  insert k v m = (k, v) ∷ erase k m

  pub lookup-erase :
      (k j : Bytes) (m : Dict V) → lookup j (erase k m) ≡ (if k == j then none else lookup j m)
  unfolding lookup erase
  lookup-erase k j [] = ground arith
  lookup-erase k j ((i, v) ∷ m) =
      ground (arith, lookup-erase k j m, eq_iff i k, eq_iff i j, eq_iff k j)

  pub lookup-insert :
      (k j : Bytes) (v : V) (m : Dict V)
      → lookup j (insert k v m) ≡ (if k == j then some v else lookup j m)
  unfolding lookup insert
  lookup-insert k j v m = ground (arith, lookup-erase k j m)

  abbrev pub keys : Dict V → List Bytes
  keys [] = []
  keys ((k, _) ∷ m) = k ∷ keys m

  -- One entry for each key.
  abbrev pub IsMap : Dict V → Type ℓ
  IsMap [] = Unit
  IsMap ((k, _) ∷ m) = (lookup k m ≡ none) × IsMap m

  pub erase-IsMap : (k : Bytes) (m : Dict V) → IsMap m → IsMap (erase k m)
  unfolding erase
  erase-IsMap k [] h = tt
  erase-IsMap k ((j, v) ∷ m) (fresh, h) = elim (Bool-cases (j == k)) [
    | inl e ↦ rw e (erase-IsMap k m h)
    | inr e ↦ rw e (rw (lookup-erase k j m) (ground arith), erase-IsMap k m h)
  ]

  pub insert-IsMap : (k : Bytes) (v : V) (m : Dict V) → IsMap m → IsMap (insert k v m)
  unfolding insert
  insert-IsMap k v m h = (rw (lookup-erase k k m, eq_refl k), erase-IsMap k m h)

  pub contains-keys : (k : Bytes) (m : Dict V) → contains (keys m) k ≡ is_some (lookup k m)
  unfolding lookup contains
  contains-keys k [] = refl
  contains-keys k ((j, v) ∷ m) = ground (arith, contains-keys k m)

  -- Deleting a key that is not there changes nothing.
  pub erase_of_none : (k : Bytes) (m : Dict V) → lookup k m ≡ none → erase k m ≡ m
  unfolding lookup erase
  erase_of_none k [] h = refl
  erase_of_none k ((j, v) ∷ m) h = ground (arith, erase_of_none k m)

  pub lookup-eq_none : (j : Bytes) (m : Dict V) → m ≡ [] → lookup j m ≡ none
  unfolding lookup
  lookup-eq_none j m h = rw h
