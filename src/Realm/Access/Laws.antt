-- ===== src/Realm/Access/Laws.antt =====
-- realm/realm.go: what the tests decide.
use dataverse_hub.Base.{
  ◌≡◌, ◌≢◌, ◌↔◌, inl, inr, true, Option, List, [], ◌∷◌, Bytes, ◌==◌, eq_iff, eq_refl, contains,
  arith, Bool-cases,
}
use dataverse_hub.External.{Library}
use dataverse_hub.Object.Verify.{is_pubkey_realm}
use dataverse_hub.Realm.Resolver.{RealmResolver}
use dataverse_hub.Realm.Access.{
  dataverse001, server_public, is_public_read, knows_realm, grants, accepts_realm,
  validate_realms_for_put, some_realm_grants, can_read,
}

-- Some realm of the list grants the key access by a membership.
abbrev pub MemberOfOne : Option RealmResolver → List Bytes → Bytes → Type 0
MemberOfOne R realms pubkey = (r : Bytes) × (contains realms r ≡ true) × (grants R r pubkey ≡ true)

-- Why a reader may see an object.
pub data MayRead (realms : List Bytes) (pubkey : Bytes) (R : Option RealmResolver) : Type 0 where
  global : contains realms dataverse001 ≡ true → MayRead realms pubkey R
  local : contains realms server_public ≡ true → MayRead realms pubkey R
  own : pubkey ≢ [] → contains realms pubkey ≡ true → MayRead realms pubkey R
  member : pubkey ≢ [] → MemberOfOne R realms pubkey → MayRead realms pubkey R

some_realm_grants_sound :
    (R : Option RealmResolver) (realms : List Bytes) (pubkey : Bytes)
    → some_realm_grants R realms pubkey ≡ true
    → MemberOfOne R realms pubkey
unfolding some_realm_grants contains
some_realm_grants_sound R [] pubkey h = cc
some_realm_grants_sound R (r ∷ rs) pubkey h = elim (Bool-cases (grants R r pubkey)) [
  | inl g ↦ (r, ground (arith, eq_refl r), g)
  | inr g ↦
      let (s, here, granted) = some_realm_grants_sound R rs pubkey (ground arith) in
      (s, ground arith, granted)
]

some_realm_grants_complete :
    (R : Option RealmResolver) (realms : List Bytes) (pubkey : Bytes) (r : Bytes)
    → contains realms r ≡ true
    → grants R r pubkey ≡ true
    → some_realm_grants R realms pubkey ≡ true
unfolding some_realm_grants contains
some_realm_grants_complete R [] pubkey r h g = cc
some_realm_grants_complete R (s ∷ rs) pubkey r h g =
    ground (arith, eq_iff s r, some_realm_grants_complete R rs pubkey r)

can_read_sound :
    (realms : List Bytes) (pubkey : Bytes) (R : Option RealmResolver)
    → can_read realms pubkey R ≡ true
    → MayRead realms pubkey R
unfolding can_read is_public_read
can_read_sound realms pubkey R h = elim (Bool-cases (contains realms dataverse001)) [
  | inl e ↦ global e
  | inr e ↦ elim (Bool-cases (contains realms server_public)) [
    | inl f ↦ local f
    | inr f ↦ elim (Bool-cases (pubkey == [])) [
      | inl g ↦ absurd (ground arith)
      | inr g ↦ elim (Bool-cases (contains realms pubkey)) [
        | inl k ↦ own (ground (arith, eq_iff pubkey [])) k
        | inr k ↦
            member (ground (arith, eq_iff pubkey []))
              (some_realm_grants_sound R realms pubkey (ground arith))
      ]
    ]
  ]
]

can_read_complete :
    (realms : List Bytes) (pubkey : Bytes) (R : Option RealmResolver)
    → MayRead realms pubkey R
    → can_read realms pubkey R ≡ true
unfolding can_read is_public_read
can_read_complete realms pubkey R (global h) = ground arith
can_read_complete realms pubkey R (local h) = ground arith
can_read_complete realms pubkey R (own n h) = ground (arith, eq_iff pubkey [])
can_read_complete realms pubkey R (member n (r, h, g)) =
    ground (arith, eq_iff pubkey [], some_realm_grants_complete R realms pubkey r h g)

-- `CanRead` says yes exactly when the object is in dataverse001 or server-public, or the reader is
-- authenticated and its key is one of the object's realms or a member of one of them.
pub can_read_iff :
    (realms : List Bytes) (pubkey : Bytes) (R : Option RealmResolver)
    → (can_read realms pubkey R ≡ true) ↔ MayRead realms pubkey R
can_read_iff realms pubkey R = (can_read_sound realms pubkey R, can_read_complete realms pubkey R)

-- An anonymous reader sees exactly the public objects, whatever the resolver says.
pub can_read-anonymous :
    (realms : List Bytes) (R : Option RealmResolver) → can_read realms [] R ≡ is_public_read realms
unfolding can_read
can_read-anonymous realms R = ground (arith, eq_refl [])

-- Why a write is acceptable.
pub data MayStore (lib : Library) (realms : List Bytes) (signer : Bytes) (R : Option RealmResolver)
    : Type 0 where
  global : contains realms dataverse001 ≡ true → MayStore lib realms signer R
  local : contains realms server_public ≡ true → MayStore lib realms signer R
  own :
      contains realms signer ≡ true
      → is_pubkey_realm lib signer ≡ true
      → MayStore lib realms signer R
  shared :
      (r : Bytes) → contains realms r ≡ true → knows_realm R r ≡ true → MayStore lib realms signer R

weaken_store :
    (lib : Library) (r : Bytes) (realms : List Bytes) (signer : Bytes) (R : Option RealmResolver)
    → MayStore lib realms signer R
    → MayStore lib (r ∷ realms) signer R
unfolding contains
weaken_store lib r realms signer R (global h) = global (ground arith)
weaken_store lib r realms signer R (local h) = local (ground arith)
weaken_store lib r realms signer R (own h k) = own (ground arith) k
weaken_store lib r realms signer R (shared s h k) = shared s (ground arith) k

accepts_realm_sound :
    (lib : Library) (r : Bytes) (realms : List Bytes) (signer : Bytes) (R : Option RealmResolver)
    → accepts_realm lib signer R r ≡ true
    → MayStore lib (r ∷ realms) signer R
unfolding accepts_realm contains
accepts_realm_sound lib r realms signer R h = elim (Bool-cases (r == dataverse001)) [
  | inl e ↦ global (ground arith)
  | inr e ↦ elim (Bool-cases (r == server_public)) [
    | inl f ↦ local (ground arith)
    | inr f ↦ elim (Bool-cases (knows_realm R r)) [
      | inl k ↦ shared r (ground (arith, eq_refl r)) k
      | inr k ↦ own (ground arith) (ground (arith, eq_iff r signer))
    ]
  ]
]

validate_sound :
    (lib : Library) (realms : List Bytes) (signer : Bytes) (R : Option RealmResolver)
    → validate_realms_for_put lib realms signer R ≡ true
    → MayStore lib realms signer R
unfolding validate_realms_for_put
validate_sound lib [] signer R h = cc
validate_sound lib (r ∷ rs) signer R h = elim (Bool-cases (accepts_realm lib signer R r)) [
  | inl e ↦ accepts_realm_sound lib r rs signer R e
  | inr e ↦ weaken_store lib r rs signer R (validate_sound lib rs signer R (ground arith))
]

-- One acceptable realm of the list is enough.
validate_of_contains :
    (lib : Library) (realms : List Bytes) (signer : Bytes) (R : Option RealmResolver) (r : Bytes)
    → contains realms r ≡ true
    → accepts_realm lib signer R r ≡ true
    → validate_realms_for_put lib realms signer R ≡ true
unfolding validate_realms_for_put contains
validate_of_contains lib [] signer R r h a = cc
validate_of_contains lib (s ∷ rs) signer R r h a = elim (Bool-cases (s == r)) [
  | inl e ↦ rw (rw (← (eq_iff s r).0 e) at a)
  | inr e ↦ ground (arith, validate_of_contains lib rs signer R r)
]

validate_complete :
    (lib : Library) (realms : List Bytes) (signer : Bytes) (R : Option RealmResolver)
    → MayStore lib realms signer R
    → validate_realms_for_put lib realms signer R ≡ true
unfolding accepts_realm
validate_complete lib realms signer R (global h) =
    validate_of_contains lib realms signer R dataverse001 h (ground (arith, eq_refl dataverse001))
validate_complete lib realms signer R (local h) =
    validate_of_contains lib realms signer R server_public h (ground (arith, eq_refl server_public))
validate_complete lib realms signer R (own h k) =
    validate_of_contains lib realms signer R signer h (ground (arith, eq_refl signer))
validate_complete lib realms signer R (shared r h k) =
    validate_of_contains lib realms signer R r h (ground arith)

-- `ValidateRealmsForPut` accepts exactly a list that holds dataverse001, server-public, a realm
-- that the resolver knows, or the signer's own key in the form of a pubkey realm.
pub validate_realms_for_put_iff :
    (lib : Library) (realms : List Bytes) (signer : Bytes) (R : Option RealmResolver)
    → (validate_realms_for_put lib realms signer R ≡ true) ↔ MayStore lib realms signer R
validate_realms_for_put_iff lib realms signer R =
    (validate_sound lib realms signer R, validate_complete lib realms signer R)
