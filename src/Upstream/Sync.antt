-- ===== src/Upstream/Sync.antt =====
-- upstream/sync.go: `SyncPending`, the directory of edits that are still to be pushed. Each of `Add`,
-- `Remove` and `acknowledge` holds the lock and is one step; the drain runs in one goroutine.
pub mod Careful
pub mod Kept
pub mod Drained
use dataverse_hub.Base.{
  ℕ, Bool, true, false, ◌&&◌, ◌||◌, not, Option, none, some, List, [], ◌∷◌, ◌++◌, Bytes, bytes,
  ◌==◌, eqb, leb, ltb, if◌then◌else◌, option_else, is_some, Result, ok, err,
}
use dataverse_hub.Base.Affix.{strip_suffix, has_suffix, trim_suffix, strip_prefix, has_prefix}
use dataverse_hub.Base.Dict.{Dict, lookup, insert, erase}
use dataverse_hub.External.{Library}
use dataverse_hub.Object.Types.{ref_of}
use dataverse_hub.Object.Verify.{verify_envelope, parse_envelope, same_item}
use dataverse_hub.Storage.Conflict.{ConflictCall, preserve_conflict}
use dataverse_hub.Storage.Store.{DirEntry}
use dataverse_hub.Upstream.Client.{Client, Response, set_available, health_check}

-- the queue by ref, the two directories of edits that the hub did not take, and the client
pub record SyncPending : Type 0 where
  pub queue : Dict Bytes
  pub sync_conflicts : Dict Bytes
  pub sync_rejected : Dict Bytes
  pub upstream : Client

-- the calls of `Add`, in their order
pub data AddCall : Type 0 where
  add_temp add_write add_sync add_close add_rename : AddCall

-- `Add`, of the call that fails: the error, and the queue after it
unfoldable pub add_pending :
    Option AddCall → Bytes → Bytes → Dict Bytes → Option AddCall × Dict Bytes
add_pending failing ref content queue =
    option_else failing (none, insert ref content queue) λ call. (some call, queue)

-- `Remove`; the first component says that os.Remove succeeds
unfoldable pub remove_pending : Bool → Bytes → Dict Bytes → Bool × Dict Bytes
remove_pending failing ref queue =
    if failing || not (is_some (lookup ref queue)) then (false, queue) else (true, erase ref queue)

-- the calls of `acknowledge`
pub data AckCall : Type 0 where
  read_current remove_current : AckCall

-- `acknowledge`
unfoldable pub acknowledge : (AckCall → Bool) → Bytes → Bytes → Dict Bytes → Bool × Dict Bytes
acknowledge failing ref sent queue =
    if failing read_current
    then (false, queue)
    else option_else (lookup ref queue) (true, queue)
        λ current.
          if not (current == sent)
          then (true, queue)
          else if failing remove_current
          then (false, queue)
          else (true, erase ref queue)

-- `List`, of the entries of the directory
unfoldable pub list_refs : List DirEntry → List Bytes
list_refs [] = []
list_refs (e ∷ entries) =
    let rest = list_refs entries in
    if e.is_dir || not (has_suffix e.name (bytes ".json")) || has_prefix e.name (bytes ".")
    then rest
    else trim_suffix e.name (bytes ".json") ∷ rest

-- What happens outside during a push: whether os.ReadFile fails though there is a file, whether the
-- PUT is well formed and its response, the same for the GET, the calls of the operating system that
-- fail, and whether `sleepOrStop` says to stop after it.
pub record PushEnv : Type 0 where
  pub read_fails : Bool
  pub built : Bool
  pub response : Option Response
  pub fetch_built : Bool
  pub fetched : Option Response
  pub conflict_fails : ConflictCall → Bool
  pub ack_fails : AckCall → Bool
  pub stopped : Bool

-- `preserve` of the two directories: whether it goes on, the directory and the queue
unfoldable pub preserve :
    Library → PushEnv → Bytes → Bytes → Dict Bytes → Dict Bytes → Bool × (Dict Bytes × Dict Bytes)
preserve lib env ref content dir queue =
    let kept = preserve_conflict lib env.conflict_fails content dir in
    elim (kept.0) [
      | err e ↦ (false, (kept.1, queue))
      | ok path ↦
          let acked = acknowledge env.ack_fails ref content queue in (acked.0, (kept.1, acked.1))
    ]

-- `fetchObject`; `none` is its error
unfoldable pub fetch_object : Library → PushEnv → Bytes → Option Bytes
fetch_object lib env ref =
    if not env.fetch_built
    then none
    else option_else env.fetched none λ response.
      if not (eqb response.status 200)
      then none
      else option_else response.body none λ content.
        if is_some (verify_envelope lib content)
        then none
        else option_else (parse_envelope lib content) none
            λ parsed. if not (ref_of (parsed.1) == ref) then none else some content

-- the acknowledgement on the whole state
abbrev pub acknowledged : PushEnv → Bytes → Bytes → SyncPending → Bool × SyncPending
acknowledged env ref content s = (
  (acknowledge env.ack_fails ref content s.queue).0,
  record s { queue = (acknowledge env.ack_fails ref content s.queue).1 },
)

module _ (lib : Library) (env : PushEnv) (ref content : Bytes) (s : SyncPending) where
  -- the case of 409 Conflict
  unfoldable pub on_conflict : Bool × SyncPending
  on_conflict =
      option_else (fetch_object lib env ref) (false, s)
        λ remote.
          option_else (same_item lib content remote) (false, s)
            λ same.
              if same
              then acknowledged env ref content s
              else (let r = preserve lib env ref content s.sync_conflicts s.queue in
                  (r.0, record s { sync_conflicts = r.1.0; queue = r.1.1 }))

  -- another 4xx
  unfoldable pub on_rejected : Bool × SyncPending
  on_rejected =
      let r = preserve lib env ref content s.sync_rejected s.queue in
      (r.0, record s { sync_rejected = r.1.0; queue = r.1.1 })

  -- the switch on the status
  unfoldable pub on_response : ℕ → Bool × SyncPending
  on_response status =
      if eqb status 200 || eqb status 201
      then acknowledged env ref content s
      else if eqb status 409
      then on_conflict
      else if leb 400 status && ltb status 500
      then on_rejected
      else (false, s)

  -- `pushOne` after the read of the file: whether the drain goes on, and the state
  unfoldable pub push_content : Bool × SyncPending
  push_content =
      if not env.built
      then (true, s)
      else option_else env.response (false, record s { upstream = set_available false s.upstream })
          λ response. on_response response.status

-- `pushOne`
unfoldable pub push_one : Library → PushEnv → Bytes → SyncPending → Bool × SyncPending
push_one lib env ref s =
    if env.read_fails
    then (true, s)
    else option_else (lookup ref s.queue) (true, s) λ content. push_content lib env ref content s

-- the inner loop of `drain`
unfoldable pub push_all : Library → (Bytes → PushEnv) → List Bytes → SyncPending → SyncPending
push_all lib env [] s = s
push_all lib env (ref ∷ refs) s =
    let pushed = push_one lib (env ref) ref s in
    let rest = push_all lib env refs pushed.1 in
    if not pushed.0 || (env ref).stopped then pushed.1 else rest

-- One round of `drain`, of the answer to the probe and of the entries of the directory, `none` for an
-- error of os.ReadDir. The waiting has no effect on the state.
unfoldable pub drain_round :
    Library
    → Bool × Option ℕ
    → (Bytes → PushEnv)
    → Option (List DirEntry)
    → SyncPending
    → SyncPending
drain_round lib probe env entries s =
    let probed =
      if s.upstream.available then s.upstream else (health_check probe.0 probe.1 s.upstream).1 in
    if not probed.available
    then record s { upstream = probed }
    else option_else entries (record s { upstream = probed })
        λ es. push_all lib env (list_refs es) (record s { upstream = probed })

-- The drain beside the handlers that add edits: the goroutine of the drain is between two pushes, or
-- it has read the content for a ref and waits for the hub.
pub record Machine : Type 0 where
  pub sync : SyncPending
  pub sending : Option (Bytes × Bytes)

pub data Event : Type 0 where
  added : Option AddCall → Bytes → Bytes → Event
  removed : Bool → Bytes → Event
  push_starts : Bytes → Event
  push_ends : PushEnv → Event

unfoldable pub step : Library → Event → Machine → Machine
step lib (added failing ref content) m = record m {
  sync = record m.sync { queue = (add_pending failing ref content m.sync.queue).1 };
}
step lib (removed failing ref) m = record m {
  sync = record m.sync { queue = (remove_pending failing ref m.sync.queue).1 };
}
step lib (push_starts ref) m = if is_some m.sending then m else record m {
  sending = option_else (lookup ref m.sync.queue) none λ content. some (ref, content);
}
step lib (push_ends env) m =
    option_else m.sending m
      λ p. record { sync = (push_content lib env (p.0) (p.1) m.sync).1; sending = none }

unfoldable pub run : Library → List Event → Machine → Machine
run lib [] m = m
run lib (e ∷ events) m = run lib events (step lib e m)
