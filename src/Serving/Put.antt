-- ===== src/Serving/Put.antt =====
-- serving/handlers.go: `handlePutObject`. The part up to the lock of the ref reads the index but
-- changes nothing; the part under the lock is one step.
pub mod Admissible
pub mod Admit
pub mod Stored
pub mod Frame
pub mod Backed
use dataverse_hub.Base.{
  ℕ, ◌*◌, ◌^◌, Bool, true, false, ◌&&◌, not, Option, none, some, List, [], ◌∷◌, Bytes, bytes, ◌==◌,
  ltb, length, any, if◌then◌else◌, option_else, is_some, Result, ok, err,
}
use dataverse_hub.Base.Dict.{Dict}
use dataverse_hub.External.{Library}
use dataverse_hub.Object.Types.{Envelope, Item, InField, resolve_in, ref_of}
use dataverse_hub.Object.Ref.{is_valid_ref}
use dataverse_hub.Object.Verify.{
  VerifyError, parse_envelope, canonical_json, timestamp, is_pubkey_realm, verify_envelope,
}
use dataverse_hub.Realm.Access.{validate_realms_for_put}
use dataverse_hub.Realm.Contract.{ContractError, parse_item, type_shared_realm}
use dataverse_hub.Storage.Index.{Index, resolver, update}
use dataverse_hub.Storage.Index.Queries.{get_meta}
use dataverse_hub.Storage.Store.{Store, BackupCall, WriteCall, backup, write}
use dataverse_hub.Vhost.{add_page}
use dataverse_hub.Serving.Precondition.{WriteConflict, check_conditional_write, revision_etag}

-- the parts of `Hub` that the handler changes; `pages` is the hash map of `Vhost`, if any
pub record Hub : Type 0 where
  pub index : Index
  pub store : Store
  pub pages : Option (Dict Bytes)

-- `body` is none if reading it fails; a missing If-Match header is ""
pub record PutRequest : Type 0 where
  pub ref : Bytes
  pub body : Option Bytes
  pub if_match : Bytes

-- the calls of the operating system that fail, and its clock
pub record PutEnv : Type 0 where
  pub backup_failing : Option BackupCall
  pub write_failing : Option WriteCall
  pub now : ℕ

pub data PutError : Type 0 where
  not_found unreadable_body body_too_large invalid_object realm_forbidden : PutError
  outside_known_realms ref_mismatch canonical_failed invalid_timestamp write_failed : PutError
  invalid_shared_realm : ContractError → PutError
  invalid_signature : VerifyError → PutError
  conflict : WriteConflict → PutError

-- the reply of a write that went through: 201 or 200, the ETag and the body
pub record PutReply : Type 0 where
  pub created : Bool
  pub etag : Bytes
  pub body : Bytes

abbrev pub max_body_size : ℕ
max_body_size = 10 * 2 ^ 20

-- what the handler has computed when it takes the lock
pub record Admitted : Type 0 where
  pub item : Item
  pub realms : InField
  pub canonical : Bytes
  pub ts : ℕ

module _ (lib : Library) where
  -- the check of the type SHARED_REALM
  unfoldable pub shared_realm_error : Item → Option ContractError
  shared_realm_error item =
      if not (item.kind == type_shared_realm)
      then none
      else elim (parse_item lib item) [ ok p ↦ none | err e ↦ some e ]

  -- the tail from the check of the ref on
  unfoldable pub admit_item : Bytes → Bytes → InField → Item → Result PutError Admitted
  admit_item ref body realms item =
      if not (ref == ref_of item)
      then err ref_mismatch
      else option_else (verify_envelope lib body)
          (option_else (canonical_json lib body) (err canonical_failed) λ canonical.
            option_else (timestamp lib item) (err invalid_timestamp)
              λ ts. ok (record { item = item; realms = realms; canonical = canonical; ts = ts }))
          λ e. err (invalid_signature e)

  -- the tail from the check of the realms on
  unfoldable pub admit_realms : Index → Bytes → Bytes → InField → Item → Result PutError Admitted
  unfolding shared_realm_error admit_item
  admit_realms idx ref body realms item =
      if any (λ r. is_pubkey_realm lib r && not (r == item.pubkey)) realms
      then err realm_forbidden
      else if not (validate_realms_for_put lib realms item.pubkey (some (resolver idx)))
      then err outside_known_realms
      else option_else (shared_realm_error item) (admit_item ref body realms item)
          λ e. err (invalid_shared_realm e)

  -- `handlePutObject` up to the lock. The reader that stops one byte after the limit and the test
  -- of the length let exactly the bodies within the limit pass, unchanged.
  unfoldable pub admit : Index → PutRequest → Result PutError Admitted
  unfolding admit_realms
  admit idx req =
      if not (is_valid_ref req.ref)
      then err not_found
      else option_else req.body (err unreadable_body) λ body.
        if ltb max_body_size (length body)
        then err body_too_large
        else option_else (parse_envelope lib body) (err invalid_object)
            λ p. admit_realms idx req.ref body (resolve_in p.0 p.1) p.1

  -- the backup of an object that is overwritten; its error is only logged
  unfoldable pub backed_up : PutEnv → Bytes → Hub → Store
  backed_up env ref hub =
      option_else (get_meta hub.index ref) hub.store
        λ m. (backup env.backup_failing ref m.revision hub.store).1

  unfoldable pub commit_reply : Hub → Bytes → Admitted → PutReply
  commit_reply hub ref a = record {
    created = not (is_some (get_meta hub.index ref));
    etag = revision_etag a.item.revision;
    body = a.canonical;
  }

  unfoldable pub commit_hub : PutEnv → Bytes → Admitted → Hub → Hub
  commit_hub env ref a hub = record {
    index = update lib ref a.item a.ts (a.realms ∷ []) hub.index;
    store = (write env.write_failing env.now ref a.canonical a.ts (backed_up env ref hub)).1;
    pages =
        if a.item.kind == bytes "PAGE"
        then (option_else hub.pages none λ pages. some (add_page lib ref pages))
        else hub.pages;
  }

  -- `handlePutObject` under the lock
  unfoldable pub commit : PutEnv → PutRequest → Admitted → Hub → Result PutError PutReply × Hub
  commit env req a hub =
      let written =
        write env.write_failing env.now req.ref a.canonical a.ts (backed_up env req.ref hub) in
      option_else
        (check_conditional_write req.if_match (get_meta hub.index req.ref) a.item.revision)
        (option_else written.0 (ok (commit_reply hub req.ref a), commit_hub env req.ref a hub)
          λ call. (err write_failed, record hub { store = written.1 }))
        λ c. (err (conflict c), hub)

  unfoldable pub commit_admitted :
      PutEnv → PutRequest → Hub → Result PutError Admitted → Result PutError PutReply × Hub
  commit_admitted env req hub (err e) = (err e, hub)
  commit_admitted env req hub (ok a) = commit env req a hub

  -- `handlePutObject`
  unfoldable pub handle_put_object : PutEnv → PutRequest → Hub → Result PutError PutReply × Hub
  handle_put_object env req hub = commit_admitted env req hub (admit hub.index req)
