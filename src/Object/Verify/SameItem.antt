-- ===== src/Object/Verify/SameItem.antt =====
-- object/conflict.go: `SameItem` compares items, whatever is signed round them.
use dataverse_hub.Base.{
  ◌≡◌, refl, ◌↔◌, true, Option, none, some, Bytes, ◌==◌, eq_iff, arith, option_else, sym, ap, ◌∙◌,
  eq_refl,
}
use dataverse_hub.External.{Library}
use dataverse_hub.Object.Verify.{canonical_json, parse_envelope, same_item}

module _ (lib : Library) where
  -- The canonical text of the item of an envelope.
  unfoldable pub item_text : Bytes → Option Bytes
  item_text raw = option_else (parse_envelope lib raw) none λ p. canonical_json lib (p.0).item

  same_item-texts :
      (a b : Bytes)
      → same_item lib a b
        ≡ (option_else (item_text a) none λ x. option_else (item_text b) none λ y. some (x == y))
  unfolding same_item item_text
  same_item-texts a b = ground arith

  texts-sym :
      (a b : Option Bytes)
      → (option_else a none λ x. option_else b none λ y. some (x == y))
        ≡ (option_else b none λ y. option_else a none λ x. some (y == x))
  texts-sym none none = refl
  texts-sym none (some y) = refl
  texts-sym (some x) none = refl
  texts-sym (some x) (some y) = ground (arith, eq_iff x y, eq_iff y x)

  texts-true :
      (a b : Option Bytes)
      → (option_else a none λ x. option_else b none λ y. some (x == y)) ≡ some true
      → (x : Bytes) × (a ≡ some x) × (b ≡ some x)
  texts-true none b h = cc
  texts-true (some x) none h = cc
  texts-true (some x) (some y) h = (x, refl, ground (arith, eq_iff x y))

  same_item_sound :
      (a b : Bytes)
      → same_item lib a b ≡ some true
      → (x : Bytes) × (item_text a ≡ some x) × (item_text b ≡ some x)
  same_item_sound a b h = texts-true (item_text a) (item_text b) (sym (same_item-texts a b) ∙ h)

  same_item_complete :
      (a b : Bytes)
      → ((x : Bytes) × (item_text a ≡ some x) × (item_text b ≡ some x))
      → same_item lib a b ≡ some true
  same_item_complete a b (x, p, q) = same_item-texts a b ∙ rw (p, q) (ap some (eq_refl x))

  -- `SameItem` says yes of two bodies exactly when both parse, the items of both have a canonical
  -- text, and it is one text: the signatures and the rest of the envelopes do not count.
  pub same_item_iff :
      (a b : Bytes)
      → (same_item lib a b ≡ some true)
        ↔ ((x : Bytes) × (item_text a ≡ some x) × (item_text b ≡ some x))
  same_item_iff a b = (same_item_sound a b, same_item_complete a b)

  pub same_item_symm : (a b : Bytes) → same_item lib a b ≡ same_item lib b a
  same_item_symm a b =
      same_item-texts a b ∙ texts-sym (item_text a) (item_text b) ∙ sym (same_item-texts b a)
