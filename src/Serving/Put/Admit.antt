-- ===== src/Serving/Put/Admit.antt =====
-- serving/handlers.go: what a PUT must be to reach the lock.
use dataverse_hub.Base.{
  ◌↔◌, ℕ, ◌≤◌, ◌≡◌, refl, ap, sym, ◌∙◌, true, false, ◌&&◌, not, none, some, Bytes, ◌==◌, eq_iff,
  arith, any, length, ltb, option_else-inv, option_else-inv_none, if-inv, Result, ok,
}
use dataverse_hub.External.{Library}
use dataverse_hub.Object.Types.{Envelope, Item, InField, resolve_in, ref_of}
use dataverse_hub.Object.Ref.{is_valid_ref}
use dataverse_hub.Object.Ref.Shape.{is_valid_ref_iff}
use dataverse_hub.Object.Verify.Signed.{verify_envelope_iff}
use dataverse_hub.Realm.Access.Laws.{validate_realms_for_put_iff}
use dataverse_hub.Object.Verify.{
  parse_envelope, canonical_json, timestamp, is_pubkey_realm, verify_envelope,
}
use dataverse_hub.Realm.Access.{validate_realms_for_put}
use dataverse_hub.Storage.Index.{Index, resolver}
use dataverse_hub.Serving.Put.{
  PutRequest, PutError, Admitted, max_body_size, shared_realm_error, admit_item, admit_realms,
  admit,
}
use dataverse_hub.Serving.Put.Admissible.{
  any_foreign, shared_realm_error_sound, any_foreign_none, shared_realm_error_complete,
  IsAdmissible,
}

admitted-fields :
    {realms : InField} {item : Item} {canonical : Bytes} {ts : ℕ} {a : Admitted}
    → ◌≡◌ {A = Result PutError Admitted}
        (ok (record { item = item; realms = realms; canonical = canonical; ts = ts }))
        (ok a)
    → (item ≡ a.item) × (realms ≡ a.realms) × (canonical ≡ a.canonical) × (ts ≡ a.ts)
admitted-fields {realms} {item} {canonical} {ts} {a} h =
    let e : ◌≡◌ {A = Admitted}
        (record { item = item; realms = realms; canonical = canonical; ts = ts }) a =
      cc in
    (
      ap (λ (x : Admitted). x.item) e,
      ap (λ (x : Admitted). x.realms) e,
      ap (λ (x : Admitted). x.canonical) e,
      ap (λ (x : Admitted). x.ts) e,
    )

admit_item-inv :
    (lib : Library) (ref body : Bytes) (realms : InField) (item : Item) (a : Admitted)
    → admit_item lib ref body realms item ≡ ok a
    → (ref ≡ ref_of item)
      × (verify_envelope lib body ≡ none)
      × (canonical_json lib body ≡ some a.canonical)
      × (timestamp lib item ≡ some a.ts)
      × (a.item ≡ item)
      × (a.realms ≡ realms)
unfolding admit_item
admit_item-inv lib ref body realms item a h =
    let (t1, h1) = if-inv (not (ref == ref_of item)) _ _ h (cc) in
    let (t2, h2) = option_else-inv_none (verify_envelope lib body) _ _ h1 (λ e q. cc) in
    let (canonical, t3, h3) = option_else-inv (canonical_json lib body) _ _ h2 (cc) in
    let (ts, t4, h4) = option_else-inv (timestamp lib item) _ _ h3 (cc) in
    let (fi, fr, fc, ft) = admitted-fields h4 in
    (ground (arith, eq_iff ref (ref_of item)), t2, t3 ∙ ap some fc, t4 ∙ ap some ft, sym fi, sym fr)

admit_realms-inv :
    (lib : Library) (idx : Index) (ref body : Bytes) (realms : InField) (item : Item) (a : Admitted)
    → admit_realms lib idx ref body realms item ≡ ok a
    → (any (λ r. is_pubkey_realm lib r && not (r == item.pubkey)) realms ≡ false)
      × (validate_realms_for_put lib realms item.pubkey (some (resolver idx)) ≡ true)
      × (shared_realm_error lib item ≡ none)
      × (admit_item lib ref body realms item ≡ ok a)
unfolding admit_realms
admit_realms-inv lib idx ref body realms item a h =
    let (t5, h5) =
      if-inv (any (λ r. is_pubkey_realm lib r && not (r == item.pubkey)) realms) _ _ h (cc) in
    let (t6, h6) =
      if-inv (not (validate_realms_for_put lib realms item.pubkey (some (resolver idx)))) _ _ h5
        (cc) in
    let (t7, h7) = option_else-inv_none (shared_realm_error lib item) _ _ h6 (λ e q. cc) in
    (t5, ground arith, t7, h7)

admit-inv :
    (lib : Library) (idx : Index) (req : PutRequest) (a : Admitted)
    → admit lib idx req ≡ ok a
    → (is_valid_ref req.ref ≡ true)
      × ((body : Bytes) × (req.body ≡ some body)
          × (length body ≤ max_body_size)
          × ((p : Envelope × Item) × (parse_envelope lib body ≡ some p)
              × (admit_realms lib idx req.ref body (resolve_in p.0 p.1) p.1 ≡ ok a)))
unfolding admit
admit-inv lib idx req a h =
    let (t1, h1) = if-inv (not (is_valid_ref req.ref)) _ _ h (cc) in
    let (body, t2, h2) = option_else-inv req.body _ _ h1 (cc) in
    let (t3, h3) = if-inv (ltb max_body_size (length body)) _ _ h2 (cc) in
    let (p, t4, h4) = option_else-inv (parse_envelope lib body) _ _ h3 (cc) in
    (ground arith, (body, t2, ground arith, (p, t4, h4)))

IsAdmissible-intro :
    (lib : Library) (idx : Index) (req : PutRequest) (a : Admitted) (body : Bytes) (env : Envelope)
    (item : Item)
    → is_valid_ref req.ref ≡ true
    → req.body ≡ some body
    → length body ≤ max_body_size
    → parse_envelope lib body ≡ some (env, item)
    → admit_realms lib idx req.ref body (resolve_in env item) item ≡ ok a
    → IsAdmissible lib idx req a
IsAdmissible-intro lib idx req a body env item valid has bound parsed h =
    let (own, known, contract, h1) =
      admit_realms-inv lib idx req.ref body (resolve_in env item) item a h in
    let (at, signed, canonical, dated, i, s) =
      admit_item-inv lib req.ref body (resolve_in env item) item a h1 in
    record {
      body = body;
      envelope = env;
      has_body = has;
      valid_ref = (is_valid_ref_iff req.ref).0 valid;
      bounded = bound;
      parsed = rw i parsed;
      realms = rw (s, i) refl;
      own_realms = any_foreign lib a.item.pubkey a.realms (rw (s, i) own);
      known_realms =
          (validate_realms_for_put_iff lib a.realms a.item.pubkey (some (resolver idx))).0
            (rw (s, i) known);
      contract = shared_realm_error_sound lib a.item (rw i contract);
      own_ref = rw i at;
      signed = (verify_envelope_iff lib body).0 signed;
      canonical = canonical;
      dated = rw i dated;
    }

admit_sound :
    (lib : Library) (idx : Index) (req : PutRequest) (a : Admitted)
    → admit lib idx req ≡ ok a
    → IsAdmissible lib idx req a
admit_sound lib idx req a h =
    let (valid, (body, has, bound, (p, parsed, rest))) = admit-inv lib idx req a h in
    IsAdmissible-intro lib idx req a body p.0 p.1 valid has bound parsed rest

admit_item_complete :
    (lib : Library) (idx : Index) (req : PutRequest) (a : Admitted) (i : IsAdmissible lib idx req a)
    → admit_item lib req.ref i.body a.realms a.item ≡ ok a
unfolding admit_item
admit_item_complete lib idx req a i =
    let at = (eq_iff req.ref (ref_of a.item)).1 (i.own_ref) in
    let signed = (verify_envelope_iff lib i.body).1 (i.signed) in
    rw (at, signed, i.canonical, i.dated) refl

admit_complete :
    (lib : Library) (idx : Index) (req : PutRequest) (a : Admitted)
    → IsAdmissible lib idx req a
    → admit lib idx req ≡ ok a
unfolding admit admit_realms
admit_complete lib idx req a i =
    let valid = (is_valid_ref_iff req.ref).1 (i.valid_ref) in
    let size : ltb max_body_size (length i.body) ≡ false = ground (arith, i.bounded) in
    let own = any_foreign_none lib a.item.pubkey a.realms (i.own_realms) in
    let known =
      (validate_realms_for_put_iff lib a.realms a.item.pubkey (some (resolver idx))).1
        (i.known_realms) in
    let contract = shared_realm_error_complete lib a.item (i.contract) in
    rw (valid, i.has_body, size, i.parsed, ← i.realms, own, known, contract)
      (admit_item_complete lib idx req a i)

-- A request reaches the lock exactly if its ref has the shape of a ref and is the one of its item, its
-- body is within the limit, parses, is signed and has a canonical form and a time, each pubkey realm
-- is the signer's, some realm may be written, and a SHARED_REALM keeps its contract; and what the
-- handler goes on with is that item, its realms, the canonical form and the time.
pub admit-IsAdmissible :
    (lib : Library) (idx : Index) (req : PutRequest) (a : Admitted)
    → (admit lib idx req ≡ ok a) ↔ IsAdmissible lib idx req a
admit-IsAdmissible lib idx req a = (admit_sound lib idx req a, admit_complete lib idx req a)
