-- ===== src/Upstream/Sync/Drained.antt =====
-- upstream/sync.go: the drain empties the queue.
use mathlib.Core.List.{Memᴰ}
use dataverse_hub.Base.{
  ℕ, ◌≡◌, refl, ◌∙◌, subst, Bool, true, false, ◌||◌, Option, none, some, List, [], ◌∷◌, ◌++◌, Bytes,
  bytes, eq_iff, eq_refl, arith, eqb, if◌then◌else◌, is_some, contains, Bool-cases, Option-cases,
  inl, inr,
}
use dataverse_hub.Base.Affix.{has_prefix, strip_suffix-append}
use dataverse_hub.Base.Dict.{Dict, lookup, erase, lookup-erase, erase_of_none}
use dataverse_hub.External.{Library}
use dataverse_hub.Storage.Store.{DirEntry}
use dataverse_hub.Upstream.Client.{Client, Response, health_check}
use dataverse_hub.Upstream.Sync.{
  SyncPending, PushEnv, read_current, remove_current, acknowledge, acknowledged, on_response,
  push_content, push_one, push_all, list_refs, drain_round,
}

-- The hub takes the edit, nothing fails on the way, and the drain is not told to stop.
pub record IsAccepted (env : PushEnv) : Type 0 where
  pub reads : env.read_fails ≡ false
  pub builds : env.built ≡ true
  pub response : Response
  pub answers : env.response ≡ some response
  pub accepts : (eqb response.status 200 || eqb response.status 201) ≡ true
  pub acks_read : env.ack_fails read_current ≡ false
  pub acks_remove : env.ack_fails remove_current ≡ false
  pub goes_on : env.stopped ≡ false

acknowledge-accepted :
    (env : PushEnv) (ref content : Bytes) (queue : Dict Bytes)
    → IsAccepted env
    → lookup ref queue ≡ some content
    → acknowledge env.ack_fails ref content queue ≡ (true, erase ref queue)
unfolding acknowledge
acknowledge-accepted env ref content queue a h =
    rw (a.acks_read, h, eq_refl content, a.acks_remove) refl

push_content-accepted :
    (lib : Library) (env : PushEnv) (ref content : Bytes) (s : SyncPending)
    → IsAccepted env
    → push_content lib env ref content s ≡ acknowledged env ref content s
unfolding push_content on_response
push_content-accepted lib env ref content s a = ground (arith, a.builds, a.answers, a.accepts)

push_one-accepted :
    (lib : Library) (env : PushEnv) (ref : Bytes) (s : SyncPending)
    → IsAccepted env
    → push_one lib env ref s ≡ (true, record s { queue = erase ref s.queue })
unfolding push_one
push_one-accepted lib env ref s a = elim (Option-cases (lookup ref s.queue)) [
  | inl n ↦ rw (a.reads, n, erase_of_none ref s.queue n) refl
  | inr (content, e) ↦
      simp (a.reads, e)
        (push_content-accepted lib env ref content s a
          ∙ rw (acknowledge-accepted env ref content s.queue a e) refl)
]

push_all-accepted :
    (lib : Library) (env : Bytes → PushEnv) (refs : List Bytes) (s : SyncPending) (ref : Bytes)
    → ((r : Bytes) → IsAccepted (env r))
    → lookup ref (push_all lib env refs s).queue
      ≡ (if contains refs ref then none else lookup ref s.queue)
unfolding push_all contains
push_all-accepted lib env [] s ref a = refl
push_all-accepted lib env (r ∷ refs) s ref a =
    rw (push_one-accepted lib (env r) r s (a r), (a r).goes_on)
      (push_all-accepted lib env refs (record s { queue = erase r s.queue }) ref a
        ∙ ground (arith, lookup-erase r ref s.queue, eq_iff r ref))

list_refs-file :
    (ref : Bytes) (entries : List DirEntry)
    → has_prefix (ref ++ bytes ".json") (bytes ".") ≡ false
    → contains (list_refs (record { name = ref ++ bytes ".json"; is_dir = false } ∷ entries)) ref
      ≡ true
unfolding list_refs contains
list_refs-file ref entries plain =
    rw (strip_suffix-append ref (bytes ".json"), plain, eq_refl ref) refl

-- The name of the file of a ref is listed as the ref, if it does not begin with a dot.
contains-list_refs :
    (ref : Bytes) (entries : List DirEntry)
    → has_prefix (ref ++ bytes ".json") (bytes ".") ≡ false
    → Memᴰ (record { name = ref ++ bytes ".json"; is_dir = false }) entries
    → contains (list_refs entries) ref ≡ true
unfolding list_refs contains
contains-list_refs ref [] plain m = elim m [ ]
contains-list_refs ref (e ∷ entries) plain (Memᴰ.head at) =
    subst (λ x. contains (list_refs (x ∷ entries)) ref ≡ true) at (list_refs-file ref entries plain)
contains-list_refs ref (e ∷ entries) plain (Memᴰ.tail m) =
    ground (arith, contains-list_refs ref entries plain m)

health_check-up :
    (built : Bool) (status : Option ℕ) (u : Client)
    → (health_check built status u).0 ≡ none
    → (health_check built status u).1.available ≡ true
unfolding health_check
health_check-up built status u h = ground arith

probed-up :
    (probe : Bool × Option ℕ) (u : Client)
    → (health_check probe.0 probe.1 u).0 ≡ none
    → (if u.available then u else (health_check probe.0 probe.1 u).1).available ≡ true
probed-up probe u h = elim (Bool-cases u.available) [
  | inl e ↦ rw (e, if◌then◌else◌) refl
  | inr e ↦ simp (e) (health_check-up probe.0 probe.1 u h)
]

-- If the hub is up and takes every edit, and nothing fails, one round of the drain empties the queue.
-- The directory lists at least the files of the queue, and no ref begins with a dot.
pub drain_round-empties :
    (lib : Library) (probe : Bool × Option ℕ) (env : Bytes → PushEnv) (entries : List DirEntry)
    (s : SyncPending)
    → (health_check probe.0 probe.1 s.upstream).0 ≡ none
    → ((r : Bytes) → IsAccepted (env r))
    → ((r : Bytes)
        → is_some (lookup r s.queue) ≡ true
        → has_prefix (r ++ bytes ".json") (bytes ".") ≡ false)
    → ((r : Bytes)
        → is_some (lookup r s.queue) ≡ true
        → Memᴰ (record { name = r ++ bytes ".json"; is_dir = false }) entries)
    → (ref : Bytes) → lookup ref (drain_round lib probe env (some entries) s).queue ≡ none
unfolding drain_round
drain_round-empties lib probe env entries s up a plain listed ref =
    let u =
      if s.upstream.available then s.upstream else (health_check probe.0 probe.1 s.upstream).1 in
    simp (probed-up probe s.upstream up) (
      push_all-accepted lib env (list_refs entries) (record s { upstream = u }) ref a
      ∙ elim (Option-cases (lookup ref s.queue)) [
        | inl n ↦ rw n (ground arith)
        | inr (c, e) ↦
            rw (contains-list_refs ref entries (plain ref (rw e refl)) (listed ref (rw e refl)))
              refl
      ])
