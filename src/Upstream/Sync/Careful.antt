-- ===== src/Upstream/Sync/Careful.antt =====
-- upstream/sync.go: what a push of one edit may do.
use dataverse_hub.Base.{
  ◌≡◌, ◌⊎◌, refl, sym, ◌∙◌, subst, Bool, true, false, ◌&&◌, ◌||◌, some, Bytes, ◌==◌, eq_iff, arith,
  eqb, leb, ltb, option_else, Bool-cases, Option-cases, inl, inr, Result-cases,
}
use dataverse_hub.Base.Dict.{Dict, lookup, lookup-erase}
use dataverse_hub.External.{Library}
use dataverse_hub.Object.Verify.{same_item}
use dataverse_hub.Storage.Conflict.{conflict_name, preserve_conflict}
use dataverse_hub.Storage.Conflict.Laws.{preserve_conflict-IsKept}
use dataverse_hub.Upstream.Client.{Client, Response, set_available}
use dataverse_hub.Upstream.Sync.{
  SyncPending, PushEnv, AckCall, acknowledge, acknowledged, preserve, fetch_object, on_conflict,
  on_rejected, on_response, push_content,
}

-- The edit lies in one of the directories of edits that the hub did not take.
abbrev pub IsArchived : Library → Bytes → SyncPending → Type 0
IsArchived lib content s =
    (lookup (conflict_name lib content) s.sync_conflicts ≡ some content)
    ⊎ (lookup (conflict_name lib content) s.sync_rejected ≡ some content)

-- The hub took the edit, or answers that it has an object of this ref with the same item.
abbrev pub confirms : Library → PushEnv → Bytes → Bytes → Bool
confirms lib env ref content = option_else env.response false λ r.
    eqb r.status 200
    || eqb r.status 201
    || (eqb r.status 409
        && option_else (fetch_object lib env ref) false
            λ remote. option_else (same_item lib content remote) false λ same. same)

acknowledge-keeps :
    (failing : AckCall → Bool) (r sent ref content : Bytes) (queue : Dict Bytes)
    → lookup ref queue ≡ some content
    → (lookup ref (acknowledge failing r sent queue).1 ≡ some content)
      ⊎ ((r ≡ ref) × (sent ≡ content))
unfolding acknowledge
acknowledge-keeps failing r sent ref content queue h = elim (Bool-cases (r == ref)) [
  | inr n ↦ inl (ground (arith, h, lookup-erase r ref queue, n))
  | inl e ↦
      let same = (eq_iff r ref).0 e in
      elim (Bool-cases (content == sent)) [
        | inl q ↦ inr (same, sym ((eq_iff content sent).0 q))
        | inr q ↦ inl (rw same (rw h (ground (arith, h, q))))
      ]
]

-- What a push of one edit may do to the state, where the flag says that the hub has confirmed it.
pub record IsCareful (lib : Library) (flag : Bool) (r sent : Bytes) (s : SyncPending)
    (x : Bool × SyncPending) : Type 0 where
  pub keeps :
      (ref content : Bytes)
      → lookup ref s.queue ≡ some content
      → (lookup ref x.1.queue ≡ some content)
        ⊎ (((r ≡ ref) × (sent ≡ content) × (flag ≡ true)) ⊎ IsArchived lib content x.1)
  pub keeps_conflicts :
      (name c : Bytes)
      → lookup name s.sync_conflicts ≡ some c
      → lookup name x.1.sync_conflicts ≡ some c
  pub keeps_rejected :
      (name c : Bytes)
      → lookup name s.sync_rejected ≡ some c
      → lookup name x.1.sync_rejected ≡ some c

module _ (lib : Library) (env : PushEnv) (r sent : Bytes) (s : SyncPending) where
  idle-IsCareful :
      (flag b : Bool) (client : Client)
      → IsCareful lib flag r sent s (b, record s { upstream = client })
  idle-IsCareful flag b client = record {
    keeps = λ ref content h. inl h;
    keeps_conflicts = λ name c h. h;
    keeps_rejected = λ name c h. h;
  }

  acknowledged-IsCareful :
      (flag : Bool) → flag ≡ true → IsCareful lib flag r sent s (acknowledged env r sent s)
  acknowledged-IsCareful flag f = record {
    keeps = λ ref content h. elim (acknowledge-keeps env.ack_fails r sent ref content s.queue h) [
      | inl kept ↦ inl kept
      | inr (same_ref, same) ↦ inr (inl (same_ref, same, f))
    ];
    keeps_conflicts = λ name c h. h;
    keeps_rejected = λ name c h. h;
  }

  -- What `preserve` may do to the directory and to the queue.
  record IsPreserved (dir : Dict Bytes) (x : Bool × (Dict Bytes × Dict Bytes)) : Type 0 where
    keeps :
        (ref content : Bytes)
        → lookup ref s.queue ≡ some content
        → (lookup ref x.1.1 ≡ some content)
          ⊎ (lookup (conflict_name lib content) x.1.0 ≡ some content)
    grows : (name c : Bytes) → lookup name dir ≡ some c → lookup name x.1.0 ≡ some c

  preserve-IsPreserved : (dir : Dict Bytes) → IsPreserved dir (preserve lib env r sent dir s.queue)
  unfolding preserve
  preserve-IsPreserved dir =
      let kept = preserve_conflict-IsKept lib env.conflict_fails sent dir in
      elim (Result-cases (preserve_conflict lib env.conflict_fails sent dir).0) [
        | inr (x, e) ↦
            rw (e, preserve) (record { keeps = λ ref content h. inl h; grows = kept.grows })
        | inl (path, e) ↦
            rw (e, preserve)
              (record {
                keeps = λ ref content h.
                    elim (acknowledge-keeps env.ack_fails r sent ref content s.queue h) [
                      | inl queued ↦ inl queued
                      | inr (_, same) ↦
                          let (at, found) = kept.found path e in
                          inr (
                            subst
                              (λ c.
                                lookup (conflict_name lib c)
                                  (preserve_conflict lib env.conflict_fails sent dir).1
                                ≡ some c)
                              same (rw at at found))
                    ];
                grows = kept.grows;
              })
      ]

  on_rejected-IsCareful : (flag : Bool) → IsCareful lib flag r sent s (on_rejected lib env r sent s)
  unfolding on_rejected
  on_rejected-IsCareful flag =
      let p = preserve-IsPreserved s.sync_rejected in
      record {
        keeps = λ ref content h. elim (p.keeps ref content h) [
          | inl queued ↦ inl queued
          | inr kept ↦ inr (inr (inr kept))
        ];
        keeps_conflicts = λ name c h. h;
        keeps_rejected = p.grows;
      }

  preserved_conflict-IsCareful :
      (flag : Bool)
      → IsCareful lib flag r sent s (
        (preserve lib env r sent s.sync_conflicts s.queue).0,
        record s {
          sync_conflicts = (preserve lib env r sent s.sync_conflicts s.queue).1.0;
          queue = (preserve lib env r sent s.sync_conflicts s.queue).1.1;
        },
      )
  preserved_conflict-IsCareful flag =
      let p = preserve-IsPreserved s.sync_conflicts in
      record {
        keeps = λ ref content h. elim (p.keeps ref content h) [
          | inl queued ↦ inl queued
          | inr kept ↦ inr (inr (inl kept))
        ];
        keeps_conflicts = p.grows;
        keeps_rejected = λ name c h. h;
      }

  -- the hub answers to the GET that it has the same item
  abbrev has_same : Bool
  has_same =
      option_else (fetch_object lib env r) false
        λ remote. option_else (same_item lib sent remote) false λ same. same

  on_conflict-IsCareful :
      (flag : Bool) → flag ≡ has_same → IsCareful lib flag r sent s (on_conflict lib env r sent s)
  unfolding on_conflict
  on_conflict-IsCareful flag f = elim (Option-cases (fetch_object lib env r)) [
    | inl n ↦ rw n (idle-IsCareful flag false s.upstream)
    | inr (remote, e) ↦ rw e (elim (Option-cases (same_item lib sent remote)) [
      | inl n ↦ rw n (idle-IsCareful flag false s.upstream)
      | inr (true, q) ↦ rw q (acknowledged-IsCareful flag (f ∙ rw (e, q) refl))
      | inr (false, q) ↦ rw q (preserved_conflict-IsCareful flag)
    ])
  ]

  on_response-IsCareful :
      (response : Response)
      → env.response ≡ some response
      → IsCareful lib
          (confirms lib env r sent)
          r
          sent
          s
          (on_response lib env r sent s response.status)
  unfolding on_response
  on_response-IsCareful response e =
      let flag = confirms lib env r sent in
      elim (Bool-cases (eqb response.status 200 || eqb response.status 201)) [
        | inl a ↦ rw a (acknowledged-IsCareful flag (rw e (ground (arith, a))))
        | inr a ↦ rw a (elim (Bool-cases (eqb response.status 409)) [
          | inl b ↦ rw b (on_conflict-IsCareful flag (rw e (ground (arith, a, b))))
          | inr b ↦ rw b (elim (Bool-cases (leb 400 response.status && ltb response.status 500)) [
            | inl c ↦ rw c (on_rejected-IsCareful flag)
            | inr c ↦ rw c (idle-IsCareful flag false s.upstream)
          ])
        ])
      ]

  pub push_content-IsCareful :
      IsCareful lib (confirms lib env r sent) r sent s (push_content lib env r sent s)
  unfolding push_content
  push_content-IsCareful =
      let flag = confirms lib env r sent in
      elim (Bool-cases env.built) [
        | inr b ↦ simp (b) (idle-IsCareful flag true s.upstream)
        | inl b ↦ elim (Option-cases env.response) [
          | inl n ↦ simp (b, n) (idle-IsCareful false false (set_available false s.upstream))
          | inr (response, e) ↦
              subst (IsCareful lib flag r sent s) (ground (arith, b, e))
                (on_response-IsCareful response e)
        ]
      ]
