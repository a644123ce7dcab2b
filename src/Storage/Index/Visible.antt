-- ===== src/Storage/Index/Visible.antt =====
-- storage/index.go: what the queries return.
use mathlib.Core.List.{Memᴰ}
use dataverse_hub.Base.{
  ◌≡◌, refl, ap, sym, ◌∙◌, ◌↔◌, Bool, true, false, not, Option, none, some, List, [], ◌∷◌, Bytes,
  ◌==◌, eq_iff, arith, option_else, option_else-inv, if-inv, Bool-cases, inl, inr, ◌≢◌,
}
use dataverse_hub.Base.Dict.{lookup}
use dataverse_hub.Object.Types.{ObjectMeta, RelationEntry}
use dataverse_hub.Realm.Access.{can_read}
use dataverse_hub.Storage.Index.{Index, resolver, slice_of}
use dataverse_hub.Storage.Index.Queries.{
  filter_allows, is_visible, passes_members_only_filter, InboundFilters, inbound_hit, pubkey_hit,
  any_hit, collect, get_inbound, get_by_pubkey, get_all,
}
use dataverse_hub.Storage.Index.Order.{mem-sort_meta_desc}

pub mem-collect_sound {ℓ} :
    {A : Type ℓ} (hit : A → Option ObjectMeta) (xs : List A) (m : ObjectMeta)
    → Memᴰ m (collect hit xs)
    → (x : A) × Memᴰ x xs × (hit x ≡ some m)
unfolding collect
mem-collect_sound hit [] m h = elim h [ ]
mem-collect_sound {A} hit (x ∷ xs) m h = go (hit x) refl h (mem-collect_sound hit xs m)
  where
    go :
        (o : Option ObjectMeta)
        → hit x ≡ o
        → Memᴰ m (option_else o (collect hit xs) λ k. k ∷ collect hit xs)
        → (Memᴰ m (collect hit xs) → (y : A) × Memᴰ y xs × (hit y ≡ some m))
        → (y : A) × Memᴰ y (x ∷ xs) × (hit y ≡ some m)
    go none e k ih = let (y, n, f) = ih k in (y, Memᴰ.tail n, f)
    go (some b) e (Memᴰ.head p) ih = (x, Memᴰ.head refl, e ∙ ap some (sym p))
    go (some b) e (Memᴰ.tail k) ih = let (y, n, f) = ih k in (y, Memᴰ.tail n, f)

pub mem-collect_complete {ℓ} :
    {A : Type ℓ} (hit : A → Option ObjectMeta) (xs : List A) (m : ObjectMeta) (x : A)
    → Memᴰ x xs
    → hit x ≡ some m
    → Memᴰ m (collect hit xs)
unfolding collect
mem-collect_complete hit [] m x h f = elim h [ ]
mem-collect_complete hit (y ∷ xs) m x (Memᴰ.head p) f = rw (← p, f) (Memᴰ.head refl)
mem-collect_complete hit (y ∷ xs) m x (Memᴰ.tail h) f =
    go (hit y) (mem-collect_complete hit xs m x h f)
  where
    go :
        (o : Option ObjectMeta)
        → Memᴰ m (collect hit xs)
        → Memᴰ m (option_else o (collect hit xs) λ k. k ∷ collect hit xs)
    go none k = k
    go (some b) k = Memᴰ.tail k

-- The reader may see the object: it can read it, and the object passes the members-only filter if
-- that is asked for.
pub record IsVisible (idx : Index) (auth : Bytes) (members_only : Bool) (m : ObjectMeta)
    : Type 0 where
  pub readable : can_read m.realms auth (some (resolver idx)) ≡ true
  pub passes : members_only ≡ true → passes_members_only_filter (resolver idx) m ≡ true

is_visible_sound :
    (idx : Index) (auth : Bytes) (members_only : Bool) (m : ObjectMeta)
    → is_visible (resolver idx) auth members_only m ≡ true
    → IsVisible idx auth members_only m
unfolding is_visible
is_visible_sound idx auth members_only m h = record {
  readable = ground arith;
  passes = λ asked. ground arith;
}

pub is_visible_complete :
    (idx : Index) (auth : Bytes) (members_only : Bool) (m : ObjectMeta)
    → IsVisible idx auth members_only m
    → is_visible (resolver idx) auth members_only m ≡ true
unfolding is_visible
is_visible_complete idx auth true m v = ground (arith, v.readable, v.passes refl)
is_visible_complete idx auth false m v = ground (arith, v.readable)

-- An empty filter allows all, another the values that are equal to it.
abbrev pub Allows : Bytes → Bytes → Type 0
Allows f v = f ≢ [] → v ≡ f

pub filter_allows_iff : (f v : Bytes) → (filter_allows f v ≡ true) ↔ Allows f v
filter_allows_iff f v = elim (Bool-cases (f == [])) [
  | inl e ↦ (λ h n. absurd (n ((eq_iff f []).0 e)), λ h. ground arith)
  | inr e ↦ (
    λ h n. (eq_iff v f).0 (ground arith),
    λ h. ground (arith, (eq_iff v f).1 (h (λ p. ground (arith, eq_iff f [])))),
  )
]

-- An object that `GetInbound` owes to the reader, by an entry of the target.
pub record IsInbound (idx : Index) (target : Bytes) (filters : InboundFilters) (auth : Bytes)
    (members_only : Bool) (m : ObjectMeta) : Type 0 where
  pub entry : RelationEntry
  pub indexed : Memᴰ entry (slice_of idx.inbound target)
  pub source : lookup entry.source_ref idx.meta ≡ some m
  pub relation : Allows filters.relation entry.relation_type
  pub from : Allows filters.from m.pubkey
  pub kind : Allows filters.kind m.kind
  pub visible : IsVisible idx auth members_only m

module _ (idx : Index) (auth : Bytes) (members_only : Bool) (m : ObjectMeta) where
  inbound_hit_sound :
      (filters : InboundFilters) (e : RelationEntry)
      → inbound_hit idx filters auth members_only e ≡ some m
      → (lookup e.source_ref idx.meta ≡ some m)
        × Allows filters.relation e.relation_type
        × Allows filters.from m.pubkey
        × Allows filters.kind m.kind
        × IsVisible idx auth members_only m
  unfolding inbound_hit
  inbound_hit_sound filters e h =
      let (a, h1) = if-inv (not (filter_allows filters.relation e.relation_type)) none _ h (cc) in
      let (k, found, h2) = option_else-inv (lookup e.source_ref idx.meta) none _ h1 (cc) in
      let (b, h3) = if-inv (not (is_visible (resolver idx) auth members_only k)) none _ h2 (cc) in
      let (c, h4) = if-inv (not (filter_allows filters.from k.pubkey)) none _ h3 (cc) in
      let (d, h5) = if-inv (not (filter_allows filters.kind k.kind)) none _ h4 (cc) in
      let same : k ≡ m = cc in
      (
        ground arith,
        (filter_allows_iff filters.relation e.relation_type).0 (ground arith),
        rw same at ((filter_allows_iff filters.from k.pubkey).0 (ground arith)),
        rw same at ((filter_allows_iff filters.kind k.kind).0 (ground arith)),
        rw same at (is_visible_sound idx auth members_only k (ground arith)),
      )

  inbound_hit_complete :
      (target : Bytes) (filters : InboundFilters)
      (i : IsInbound idx target filters auth members_only m)
      → inbound_hit idx filters auth members_only i.entry ≡ some m
  unfolding inbound_hit
  inbound_hit_complete target filters i =
      let a = (filter_allows_iff filters.relation (i.entry).relation_type).1 (i.relation) in
      let b = (filter_allows_iff filters.from m.pubkey).1 (i.from) in
      let c = (filter_allows_iff filters.kind m.kind).1 (i.kind) in
      let d = is_visible_complete idx auth members_only m (i.visible) in rw (a, i.source, d, b, c)

  get_inbound_sound :
      (target : Bytes) (filters : InboundFilters)
      → Memᴰ m (get_inbound idx target filters auth members_only)
      → IsInbound idx target filters auth members_only m
  unfolding get_inbound
  get_inbound_sound target filters h =
      let (e, there, hit) =
        mem-collect_sound (inbound_hit idx filters auth members_only) (slice_of idx.inbound target)
          m ((mem-sort_meta_desc m _).0 h) in
      let (found, relation, from, kind, visible) = inbound_hit_sound filters e hit in
      record {
        entry = e;
        indexed = there;
        source = found;
        relation = relation;
        from = from;
        kind = kind;
        visible = visible;
      }

  get_inbound_complete :
      (target : Bytes) (filters : InboundFilters)
      → IsInbound idx target filters auth members_only m
      → Memᴰ m (get_inbound idx target filters auth members_only)
  unfolding get_inbound
  get_inbound_complete target filters i = (mem-sort_meta_desc m _).1 (
      mem-collect_complete (inbound_hit idx filters auth members_only) (slice_of idx.inbound target)
        m i.entry (i.indexed) (inbound_hit_complete target filters i))

  -- `GetInbound` returns exactly the objects that have an indexed relation to the target, that the
  -- reader may see, and that pass the three filters.
  pub get_inbound_iff :
      (target : Bytes) (filters : InboundFilters)
      → Memᴰ m (get_inbound idx target filters auth members_only)
        ↔ IsInbound idx target filters auth members_only m
  get_inbound_iff target filters =
      (get_inbound_sound target filters, get_inbound_complete target filters)

  pub pubkey_hit_sound :
      (type_filter ref : Bytes)
      → pubkey_hit idx type_filter auth members_only ref ≡ some m
      → IsVisible idx auth members_only m × Allows type_filter m.kind
  unfolding pubkey_hit
  pubkey_hit_sound type_filter ref h =
      let (k, found, h1) = option_else-inv (lookup ref idx.meta) none _ h (cc) in
      let (b, h2) = if-inv (not (is_visible (resolver idx) auth members_only k)) none _ h1 (cc) in
      let (c, h3) = if-inv (not (filter_allows type_filter k.kind)) none _ h2 (cc) in
      let same : k ≡ m = cc in
      (
        rw same at (is_visible_sound idx auth members_only k (ground arith)),
        rw same at ((filter_allows_iff type_filter k.kind).0 (ground arith)),
      )

  pub any_hit_sound :
      (type_filter ref : Bytes) (k : ObjectMeta)
      → any_hit idx type_filter auth members_only (ref, k) ≡ some m
      → IsVisible idx auth members_only m × Allows type_filter m.kind × (k ≡ m)
  unfolding any_hit
  any_hit_sound type_filter ref k h =
      let (b, h1) = if-inv (not (is_visible (resolver idx) auth members_only k)) none _ h (cc) in
      let (c, h2) = if-inv (not (filter_allows type_filter k.kind)) none _ h1 (cc) in
      let same : k ≡ m = cc in
      (
        rw same at (is_visible_sound idx auth members_only k (ground arith)),
        rw same at ((filter_allows_iff type_filter k.kind).0 (ground arith)),
        same,
      )

  any_hit_complete :
      (type_filter ref : Bytes)
      → IsVisible idx auth members_only m
      → Allows type_filter m.kind
      → any_hit idx type_filter auth members_only (ref, m) ≡ some m
  unfolding any_hit
  any_hit_complete type_filter ref v a =
      rw (is_visible_complete idx auth members_only m v, (filter_allows_iff type_filter m.kind).1 a)

  get_by_pubkey-IsVisible :
      (pubkey type_filter : Bytes)
      → Memᴰ m (get_by_pubkey idx pubkey type_filter auth members_only)
      → IsVisible idx auth members_only m × Allows type_filter m.kind
  unfolding get_by_pubkey
  get_by_pubkey-IsVisible pubkey type_filter h =
      let (ref, _, hit) =
        mem-collect_sound (pubkey_hit idx type_filter auth members_only)
          (slice_of idx.by_pubkey pubkey) m ((mem-sort_meta_desc m _).0 h) in
      pubkey_hit_sound type_filter ref hit

  any_hit-IsVisible :
      (type_filter : Bytes)
      → Memᴰ m (collect (any_hit idx type_filter auth members_only) idx.meta)
      → IsVisible idx auth members_only m × Allows type_filter m.kind
  any_hit-IsVisible type_filter h =
      let ((ref, k), _, hit) =
        mem-collect_sound (any_hit idx type_filter auth members_only) idx.meta m h in
      let (v, a, _) = any_hit_sound type_filter ref k hit in (v, a)

  -- Whatever its arguments, `GetAll` returns only objects that the reader may see and whose type
  -- passes the filter.
  pub get_all-IsVisible :
      (pubkey type_filter : Bytes)
      → Memᴰ m (get_all idx pubkey type_filter auth members_only)
      → IsVisible idx auth members_only m × Allows type_filter m.kind
  unfolding get_all
  get_all-IsVisible pubkey type_filter h = elim (Bool-cases (not (pubkey == []))) [
    | inl e ↦ get_by_pubkey-IsVisible pubkey type_filter (rw e at h)
    | inr e ↦ any_hit-IsVisible type_filter ((mem-sort_meta_desc m _).0 (rw e at h))
  ]
