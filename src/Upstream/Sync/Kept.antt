-- ===== src/Upstream/Sync/Kept.antt =====
-- upstream/sync.go: no edit is lost.
use dataverse_hub.Base.{
  ◌≡◌, ◌⊎◌, refl, Bool, true, false, ◌&&◌, ◌||◌, Option, none, some, List, [], ◌∷◌, Bytes, ◌==◌,
  eq_refl, arith, option_else, is_some, Bool-cases, Option-cases, inl, inr,
}
use dataverse_hub.Base.Dict.{lookup, lookup-insert, lookup-erase}
use dataverse_hub.External.{Library}
use dataverse_hub.Upstream.Sync.Careful.{IsArchived, confirms, push_content-IsCareful}
use dataverse_hub.Upstream.Sync.{
  PushEnv, AddCall, push_one, add_pending, remove_pending, Machine, Event, added, removed,
  push_starts, push_ends, step, run,
}

-- The drain sends this edit.
abbrev pub sends : Bytes → Bytes → Machine → Bool
sends ref content m = option_else m.sending false λ p. p.0 == ref && p.1 == content

-- The hub confirms the edit in answer to a push of it.
abbrev pub confirmed : Library → Bytes → Bytes → List Event → Machine → Bool
confirmed lib ref content [] m = false
confirmed lib ref content (push_ends env ∷ events) m =
    (sends ref content m && confirms lib env ref content)
    || confirmed lib ref content events (step lib (push_ends env) m)
confirmed lib ref content (added failing r c ∷ events) m =
    confirmed lib ref content events (step lib (added failing r c) m)
confirmed lib ref content (removed failing r ∷ events) m =
    confirmed lib ref content events (step lib (removed failing r) m)
confirmed lib ref content (push_starts r ∷ events) m =
    confirmed lib ref content events (step lib (push_starts r) m)

-- A client or a handler replaces or removes the edit of the ref.
abbrev pub superseded : Bytes → List Event → Bool
superseded ref [] = false
superseded ref (added none r c ∷ events) = r == ref || superseded ref events
superseded ref (added (some call) r c ∷ events) = superseded ref events
superseded ref (removed failing r ∷ events) = r == ref || superseded ref events
superseded ref (push_starts r ∷ events) = superseded ref events
superseded ref (push_ends env ∷ events) = superseded ref events

step-IsArchived :
    (lib : Library) (e : Event) (c : Bytes) (m : Machine)
    → IsArchived lib c m.sync
    → IsArchived lib c (step lib e m).sync
unfolding step
step-IsArchived lib (added failing r x) c m a = a
step-IsArchived lib (removed failing r) c m a = a
step-IsArchived lib (push_starts r) c m a = elim (Bool-cases (is_some m.sending)) [
  | inl e ↦ rw e a
  | inr e ↦ rw e a
]
step-IsArchived lib (push_ends env) c m a = elim (Option-cases m.sending) [
  | inl n ↦ rw n a
  | inr ((r, sent), e) ↦
      let careful = push_content-IsCareful lib env r sent m.sync in
      rw e (elim a [
        | inl k ↦ inl (careful.keeps_conflicts _ _ k)
        | inr k ↦ inr (careful.keeps_rejected _ _ k)
      ])
]

run-IsArchived :
    (lib : Library) (events : List Event) (c : Bytes) (m : Machine)
    → IsArchived lib c m.sync
    → IsArchived lib c (run lib events m).sync
unfolding run
run-IsArchived lib [] c m a = a
run-IsArchived lib (e ∷ events) c m a =
    run-IsArchived lib events c (step lib e m) (step-IsArchived lib e c m a)

-- What became of an edit.
abbrev pub Fate : Library → Bytes → Bytes → List Event → Machine → Type 0
Fate lib ref c events m =
    (lookup ref (run lib events m).sync.queue ≡ some c)
    ⊎ ((confirmed lib ref c events m ≡ true) ⊎ IsArchived lib c (run lib events m).sync)

add-keeps :
    (lib : Library) (failing : Option AddCall) (r x ref c : Bytes) (m : Machine)
    (events : List Event)
    → lookup ref m.sync.queue ≡ some c
    → superseded ref (added failing r x ∷ events) ≡ false
    → (lookup ref (step lib (added failing r x) m).sync.queue ≡ some c)
      × (superseded ref events ≡ false)
unfolding add_pending step
add-keeps lib none r x ref c m events h n = ground (arith, h, lookup-insert r ref x m.sync.queue, n)
add-keeps lib (some call) r x ref c m events h n = (h, n)

remove-keeps :
    (lib : Library) (failing : Bool) (r ref c : Bytes) (m : Machine)
    → lookup ref m.sync.queue ≡ some c
    → (r == ref) ≡ false
    → lookup ref (step lib (removed failing r) m).sync.queue ≡ some c
unfolding remove_pending step
remove-keeps lib failing r ref c m h n = ground (arith, h, n, lookup-erase r ref m.sync.queue)

start-keeps :
    (lib : Library) (r ref c : Bytes) (m : Machine)
    → lookup ref m.sync.queue ≡ some c
    → lookup ref (step lib (push_starts r) m).sync.queue ≡ some c
unfolding step
start-keeps lib r ref c m h = elim (Bool-cases (is_some m.sending)) [
  | inl e ↦ rw e h
  | inr e ↦ rw e h
]

-- A push that ends keeps the edit, or the hub confirms it, or it is archived.
end-keeps :
    (lib : Library) (env : PushEnv) (ref c : Bytes) (m : Machine)
    → lookup ref m.sync.queue ≡ some c
    → (lookup ref (step lib (push_ends env) m).sync.queue ≡ some c)
      ⊎ (((sends ref c m && confirms lib env ref c) ≡ true)
          ⊎ IsArchived lib c (step lib (push_ends env) m).sync)
unfolding step
end-keeps lib env ref c m h = elim (Option-cases m.sending) [
  | inl n ↦ simp (n) (inl h)
  | inr ((r, sent), e) ↦
      simp (e) (elim ((push_content-IsCareful lib env r sent m.sync).keeps ref c h) [
        | inl k ↦ inl k
        | inr (inl (same_ref, same, f)) ↦
            inr (inl (rw (same_ref, same) (rw (eq_refl ref, eq_refl c) (rw (same_ref, same) at f))))
        | inr (inr a) ↦ inr (inr a)
      ])
]

-- However the pushes of the drain and the calls of `Add` and `Remove` interleave, and whatever the
-- hub and the operating system answer: an edit in the queue that no later `Add` or `Remove` for its
-- ref replaces is still in the queue, or the hub has confirmed a push of it, or it lies in
-- sync_conflicts/ or sync_rejected/.
pub run-keeps_edit :
    (lib : Library) (events : List Event) (ref c : Bytes) (m : Machine)
    → lookup ref m.sync.queue ≡ some c
    → superseded ref events ≡ false
    → Fate lib ref c events m
unfolding run
run-keeps_edit lib [] ref c m h n = inl h
run-keeps_edit lib (added failing r x ∷ events) ref c m h n =
    let (kept, rest) = add-keeps lib failing r x ref c m events h n in
    run-keeps_edit lib events ref c (step lib (added failing r x) m) kept rest
run-keeps_edit lib (removed failing r ∷ events) ref c m h n =
    run-keeps_edit lib events ref c (step lib (removed failing r) m)
      (remove-keeps lib failing r ref c m h (ground (arith, n))) (ground (arith, n))
run-keeps_edit lib (push_starts r ∷ events) ref c m h n =
    run-keeps_edit lib events ref c (step lib (push_starts r) m) (start-keeps lib r ref c m h) n
run-keeps_edit lib (push_ends env ∷ events) ref c m h n =
    let next = step lib (push_ends env) m in
    elim (end-keeps lib env ref c m h) [
      | inr (inr a) ↦ inr (inr (run-IsArchived lib events c next a))
      | inr (inl f) ↦ inr (inl (rw f refl))
      | inl k ↦ elim (run-keeps_edit lib events ref c next k n) [
        | inl there ↦ inl there
        | inr (inl f) ↦ inr (inl (rw f (ground arith)))
        | inr (inr a) ↦ inr (inr a)
      ]
    ]

-- A push without other events in between is `pushOne`.
run-push_one :
    (lib : Library) (env : PushEnv) (ref : Bytes) (m : Machine)
    → m.sending ≡ none
    → env.read_fails ≡ false
    → (run lib (push_starts ref ∷ push_ends env ∷ []) m).sync ≡ (push_one lib env ref m.sync).1
unfolding run step push_one
run-push_one lib env ref m free reads = elim (Option-cases (lookup ref m.sync.queue)) [
  | inl n ↦ simp (free, n, reads) refl
  | inr (content, e) ↦ simp (free, e, reads) refl
]
