-- ===== src/Serving/Put/Admissible.antt =====
-- serving/handlers.go: what a PUT is that may reach the lock.
use mathlib.Core.List.{Memᴰ}
use dataverse_hub.Base.{
  List, [], ◌∷◌, Bool-cases, bytes, Result-cases, inl, inr, ◌≤◌, ◌≡◌, refl, ◌∙◌, true, false, ◌&&◌,
  not, none, some, Bytes, ◌==◌, eq_iff, arith, any, length,
}
use dataverse_hub.External.{Library}
use dataverse_hub.Object.Types.{Envelope, Item, resolve_in, ref_of}
use dataverse_hub.Object.Ref.Shape.{IsRef}
use dataverse_hub.Object.Verify.Signed.{IsAccepted}
use dataverse_hub.Realm.Access.Laws.{MayStore}
use dataverse_hub.Realm.Contract.{type_shared_realm, parse_item}
use dataverse_hub.Realm.Contract.Laws.{IsRealmObject, parse_item_iff}
use dataverse_hub.Object.Verify.{parse_envelope, canonical_json, timestamp, is_pubkey_realm}
use dataverse_hub.Storage.Index.{Index, resolver}
use dataverse_hub.Serving.Put.{PutRequest, Admitted, max_body_size, shared_realm_error}

-- No realm that is a pubkey is another one than the signer.
pub any_foreign :
    (lib : Library) (signer : Bytes) (realms : List Bytes)
    → any (λ r. is_pubkey_realm lib r && not (r == signer)) realms ≡ false
    → (r : Bytes) → Memᴰ r realms
    → is_pubkey_realm lib r ≡ true
    → r ≡ signer
any_foreign lib signer [] h r m p = elim m [ ]
any_foreign lib signer (x ∷ xs) h r (Memᴰ.head e) p =
    let q : is_pubkey_realm lib x ≡ true = rw (← e) p in
    e ∙ (eq_iff x signer).0 (ground (arith, h, q))
any_foreign lib signer (x ∷ xs) h r (Memᴰ.tail m) p = any_foreign lib signer xs (ground arith) r m p

-- The check of the type SHARED_REALM lets an object of that type pass only if it keeps the contract.
pub shared_realm_error_sound :
    (lib : Library) (item : Item)
    → shared_realm_error lib item ≡ none
    → item.kind ≡ bytes "SHARED_REALM"
    → (realm : Bytes) × ((members : List Bytes) × IsRealmObject lib item realm members)
unfolding shared_realm_error
shared_realm_error_sound lib item h kind =
    let typed : item.kind == type_shared_realm ≡ true =
      (eq_iff item.kind type_shared_realm).1 kind in
    elim (Result-cases (parse_item lib item)) [
      | inl ((realm, members), e) ↦ (realm, (members, (parse_item_iff lib item realm members).0 e))
      | inr (x, e) ↦ absurd (cc (rw (typed, e) at h))
    ]

pub any_foreign_none :
    (lib : Library) (signer : Bytes) (realms : List Bytes)
    → ((r : Bytes) → Memᴰ r realms → is_pubkey_realm lib r ≡ true → r ≡ signer)
    → any (λ r. is_pubkey_realm lib r && not (r == signer)) realms ≡ false
any_foreign_none lib signer [] h = refl
any_foreign_none lib signer (x ∷ xs) h =
    let rest = any_foreign_none lib signer xs (λ r m. h r (Memᴰ.tail m)) in
    elim (Bool-cases (is_pubkey_realm lib x)) [
      | inl p ↦ ground (arith, rest, p, (eq_iff x signer).1 (h x (Memᴰ.head refl) p))
      | inr p ↦ ground (arith, rest, p)
    ]

pub shared_realm_error_complete :
    (lib : Library) (item : Item)
    → (item.kind ≡ bytes "SHARED_REALM"
        → (realm : Bytes) × ((members : List Bytes) × IsRealmObject lib item realm members))
    → shared_realm_error lib item ≡ none
unfolding shared_realm_error
shared_realm_error_complete lib item h = elim (Bool-cases (item.kind == type_shared_realm)) [
  | inr e ↦ rw e refl
  | inl e ↦
      let (realm, (members, o)) = h ((eq_iff item.kind type_shared_realm).0 e) in
      rw (e, (parse_item_iff lib item realm members).1 o) refl
]

-- The object of an admitted request: well formed, signed, at its own address and in realms that its
-- signer may write.
pub record IsAdmissible (lib : Library) (idx : Index) (req : PutRequest) (a : Admitted)
    : Type 0 where
  pub body : Bytes
  pub envelope : Envelope
  pub has_body : req.body ≡ some body
  pub valid_ref : IsRef req.ref
  pub bounded : length body ≤ max_body_size
  pub parsed : parse_envelope lib body ≡ some (envelope, a.item)
  pub realms : a.realms ≡ resolve_in envelope a.item
  pub own_realms : (r : Bytes) → Memᴰ r a.realms → is_pubkey_realm lib r ≡ true → r ≡ a.item.pubkey
  pub known_realms : MayStore lib a.realms a.item.pubkey (some (resolver idx))
  pub contract :
      a.item.kind ≡ bytes "SHARED_REALM"
      → (realm : Bytes) × ((members : List Bytes) × IsRealmObject lib a.item realm members)
  pub own_ref : req.ref ≡ ref_of a.item
  pub signed : IsAccepted lib body
  pub canonical : canonical_json lib body ≡ some a.canonical
  pub dated : timestamp lib a.item ≡ some a.ts
