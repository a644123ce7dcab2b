-- ===== src/Tests/Queue.antt =====
-- upstream/ and storage/conflict.go at concrete inputs.
use mathlib.Core.List.{Memᴰ}
use dataverse_hub.Base.{
  ℕ, ◌≡◌, refl, Bool, true, false, none, some, List, [], ◌∷◌, ◌++◌, Bytes, bytes, ◌==◌, eq_iff,
  arith, is_some, subst, ok,
}
use dataverse_hub.Base.Affix.{strip_prefix, has_prefix}
use dataverse_hub.Base.Dict.{Dict, lookup}
use dataverse_hub.Realm.RealmId.{hex_text}
use dataverse_hub.Storage.Conflict.{
  ConflictCall, preserve_conflict, conflict_name, sync_conflict_dir,
}
use dataverse_hub.Storage.Conflict.Laws.{IsKept, preserve_conflict-IsKept}
use dataverse_hub.Storage.Store.{DirEntry}
use dataverse_hub.Upstream.Client.{new_client, health_check, is_down}
use dataverse_hub.Upstream.Sync.{
  SyncPending, PushEnv, Event, Machine, added, push_starts, push_ends, drain_round,
}
use dataverse_hub.Upstream.Sync.Kept.{superseded, Fate, run-keeps_edit}
use dataverse_hub.Upstream.Sync.Drained.{IsAccepted, drain_round-empties}
use dataverse_hub.Tests.Fixture.{note_ref, toy}

abbrev edit : Bytes
edit = bytes "edit"

abbrev archive : Dict Bytes
archive = (bytes "x.json", bytes "old") ∷ []

-- The directory cannot be synced: the edit is there, and the call reports an error.
abbrev sync_fails : ConflictCall → Bool
sync_fails sync_conflict_dir = true
sync_fails _ = false

preserve_conflict-IsKept_example :
    IsKept toy edit archive (preserve_conflict toy sync_fails edit archive)
preserve_conflict-IsKept_example = preserve_conflict-IsKept toy sync_fails edit archive

first-kept : (preserve_conflict toy (λ call. false) edit archive).0 ≡ ok (conflict_name toy edit)
unfolding preserve_conflict lookup hex_text ◌==◌
first-kept = refl

abbrev queued : SyncPending
queued = record {
  queue = (note_ref, edit) ∷ [];
  sync_conflicts = [];
  sync_rejected = [];
  upstream = new_client (bytes "https://hub");
}

abbrev answer : ℕ → PushEnv
answer status = record {
  read_fails = false;
  built = true;
  response = some (record { status = status; body = some [] });
  fetch_built = true;
  fetched = none;
  conflict_fails = λ call. false;
  ack_fails = λ call. false;
  stopped = false;
}

-- A conflict whose object cannot be fetched, another edit, and then a refusal.
abbrev events : List Event
events =
    push_starts note_ref
    ∷ push_ends (answer 409)
    ∷ push_starts note_ref
    ∷ added none (bytes "other") edit
    ∷ push_ends (answer 422)
    ∷ []

abbrev machine : Machine
machine = record { sync = queued; sending = none }

is_queued : lookup note_ref machine.sync.queue ≡ some edit
unfolding lookup ◌==◌
is_queued = refl

not_superseded : superseded note_ref events ≡ false
unfolding ◌==◌
not_superseded = refl

run-keeps_edit_example : Fate toy note_ref edit events machine
run-keeps_edit_example = run-keeps_edit toy events note_ref edit machine is_queued not_superseded

accepted : Bytes → IsAccepted (answer 201)
accepted r = record {
  reads = refl;
  builds = refl;
  response = record { status = 201; body = some [] };
  answers = refl;
  accepts = refl;
  acks_read = refl;
  acks_remove = refl;
  goes_on = refl;
}

abbrev entries : List DirEntry
entries =
    record { name = bytes ".tmp-1"; is_dir = false }
    ∷ record { name = note_ref ++ bytes ".json"; is_dir = false }
    ∷ []

is_up : (health_check true (some 200) (new_client (bytes "https://hub"))).0 ≡ none
unfolding health_check is_down
is_up = refl

only_note : (r : Bytes) → is_some (lookup r queued.queue) ≡ true → note_ref ≡ r
unfolding lookup
only_note r h = ground (arith, eq_iff note_ref r)

drain_round-empties_example :
    lookup note_ref (drain_round toy (true, some 200) (λ r. answer 201) (some entries) queued).queue
    ≡ none
unfolding strip_prefix
drain_round-empties_example =
    drain_round-empties toy (true, some 200) (λ r. answer 201) entries queued is_up accepted
      (λ r h. subst (λ z. has_prefix (z ++ bytes ".json") (bytes ".") ≡ false) (only_note r h) refl)
      (λ r h.
        subst (λ z. Memᴰ (record { name = z ++ bytes ".json"; is_dir = false }) entries)
          (only_note r h) (Memᴰ.tail (Memᴰ.head refl)))
      note_ref
