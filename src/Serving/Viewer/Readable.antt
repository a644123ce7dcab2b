-- ===== src/Serving/Viewer/Readable.antt =====
-- serving/viewer.go: a page that shows an object is one that the reader may read.
use mathlib.Core.Option.{some-injective}
use dataverse_hub.Base.{
  ◌≡◌, ◌⊎◌, refl, sym, ◌∙◌, subst, Bool, true, false, ◌&&◌, ◌||◌, not, some, List, [], ◌∷◌, Bytes,
  bytes, ◌==◌, eq_iff, arith, contains, if◌then◌else◌, option_else, option_else-inv, if-inv,
  Bool-cases, Option-cases, inl, inr,
}
use dataverse_hub.External.{Library}
use dataverse_hub.Object.Types.{Envelope, Item, resolve_in, ref_of}
use dataverse_hub.Object.Verify.{parse_envelope}
use dataverse_hub.Realm.Access.{can_read, is_public_object}
use dataverse_hub.Serving.Representation.{extract_html}
use dataverse_hub.Storage.Index.{resolver}
use dataverse_hub.Serving.Viewer.{
  ViewerResolution, ViewerResolver, viewer_inline, viewer_type_default, no_viewer, available,
  read_content, first_relation_ref, load_item, load_page, type_viewer, related_viewer, primary,
}

-- The store has an item of the ref, of the type that is asked for, which the reader may read.
pub record IsLoaded (lib : Library) (r : ViewerResolver) (ref required : Bytes) (x : Item × Bool)
    : Type 0 where
  pub content : Bytes
  pub env : Envelope
  pub stored : read_content r.read_fails ref r.store ≡ some content
  pub parsed : parse_envelope lib content ≡ some (env, x.0)
  pub own : ref_of x.0 ≡ ref
  pub typed : (required == [] || x.0.kind == required) ≡ true
  pub allowed : can_read (resolve_in env x.0) r.auth_pubkey (some (resolver r.index)) ≡ true
  pub public : x.1 ≡ is_public_object (resolve_in env x.0)

pub load_item-IsLoaded :
    (lib : Library) (r : ViewerResolver) (ref required : Bytes) (x : Item × Bool)
    → r.enforce_access ≡ true
    → load_item lib r ref required ≡ some x
    → IsLoaded lib r ref required x
unfolding load_item
load_item-IsLoaded lib r ref required x access h =
    let (content, stored, h1) =
      option_else-inv (read_content r.read_fails ref r.store) _ _ h (cc) in
    let (p, parsed, h2) = option_else-inv (parse_envelope lib content) _ _ h1 (cc) in
    let (own, h3) = if-inv (not (ref_of p.1 == ref)) _ _ h2 (cc) in
    let (typed, h4) = if-inv (not (required == []) && not (p.1.kind == required)) _ _ h3 (cc) in
    let (allowed, h5) =
      if-inv
        (r.enforce_access
          && not (can_read (resolve_in (p.0) (p.1)) r.auth_pubkey (some (resolver r.index))))
        _ _ h4 (cc) in
    subst (IsLoaded lib r ref required) (some-injective _ _ h5) (record {
      content = content;
      env = p.0;
      stored = stored;
      parsed = parsed;
      own = ground (arith, own, eq_iff (ref_of p.1) ref);
      typed = ground (arith, typed);
      allowed = ground (arith, allowed, access);
      public = refl;
    })

-- The page is in the store, the HTML is its own, the reader may read it, and if the answer is not
-- marked as private, everybody may.
pub record IsShown (lib : Library) (r : ViewerResolver) (v : ViewerResolution) : Type 0 where
  pub item : Item
  pub is_public : Bool
  pub page : IsLoaded lib r v.page_ref (bytes "PAGE") (item, is_public)
  pub own_html : v.html ≡ extract_html lib item
  pub marked : v.requires_auth ≡ false → is_public ≡ true

pub load_page-IsShown :
    (lib : Library) (r : ViewerResolver) (ref : Bytes) (visited : List Bytes) (v : ViewerResolution)
    → r.enforce_access ≡ true
    → load_page lib r ref visited ≡ some v
    → IsShown lib r v
unfolding load_page
load_page-IsShown lib r ref visited v access h =
    let (_, h1) = if-inv (ref == [] || contains visited ref) _ _ h (cc) in
    let (p, loaded, h2) = option_else-inv (load_item lib r ref (bytes "PAGE")) _ _ h1 (cc) in
    let (_, h3) = if-inv (extract_html lib p.0 == []) _ _ h2 (cc) in
    subst (IsShown lib r) (some-injective _ _ h3) (record {
      item = p.0;
      is_public = p.1;
      page = load_item-IsLoaded lib r ref (bytes "PAGE") p access loaded;
      own_html = refl;
      marked = λ q. ground (arith, q);
    })

-- The page is the object that was asked for: the content that is at hand parses to a PAGE at this ref,
-- and the HTML is its own. If the answer is not marked as private, everybody may read it.
pub record IsInline (lib : Library) (r : ViewerResolver) (v : ViewerResolution) : Type 0 where
  pub env : Envelope
  pub item : Item
  pub parsed : parse_envelope lib r.requested_content ≡ some (env, item)
  pub requested : ref_of item ≡ r.requested_ref
  pub typed : item.kind ≡ bytes "PAGE"
  pub source : v.source ≡ viewer_inline
  pub at : v.page_ref ≡ r.requested_ref
  pub own_html : v.html ≡ extract_html lib item
  pub marked : v.requires_auth ≡ false → is_public_object (resolve_in env item) ≡ true

-- The one or the other, or no page at all.
abbrev pub MayShow : Library → ViewerResolver → ViewerResolution → Type 0
MayShow lib r v = available v ≡ true → IsInline lib r v ⊎ IsShown lib r v

pub no_viewer-MayShow : (lib : Library) (r : ViewerResolver) → MayShow lib r no_viewer
no_viewer-MayShow lib r h = absurd (cc)

-- Another source and other revisions change nothing, and the mark may only be added.
pub relabel :
    (lib : Library) (r : ViewerResolver) (v w : ViewerResolution)
    → IsShown lib r v
    → w.page_ref ≡ v.page_ref
    → w.html ≡ v.html
    → (w.requires_auth ≡ false → v.requires_auth ≡ false)
    → IsShown lib r w
relabel lib r v w s at html weaker = record {
  item = s.item;
  is_public = s.is_public;
  page = subst (λ ref. IsLoaded lib r ref (bytes "PAGE") (s.item, s.is_public)) (sym at) s.page;
  own_html = html ∙ s.own_html;
  marked = λ q. s.marked (weaker q);
}

module _ (lib : Library) (r : ViewerResolver) (access : r.enforce_access ≡ true) where
  type_viewer-MayShow :
      (item : Item) (visited : List Bytes) → MayShow lib r (type_viewer lib r item visited)
  unfolding type_viewer
  type_viewer-MayShow item visited =
      let type_ref = first_relation_ref lib item (bytes "type_def") in
      elim (Bool-cases (type_ref == [] || contains visited type_ref)) [
        | inl e ↦ rw e (no_viewer-MayShow lib r)
        | inr e ↦ rw e (elim (Option-cases (load_item lib r type_ref (bytes "TYPE"))) [
          | inl n ↦ rw n (no_viewer-MayShow lib r)
          | inr (t, l) ↦
              rw l
                (typed-MayShow t (first_relation_ref lib t.0 (bytes "page")) (type_ref ∷ visited))
        ])
      ]
    where
      typed-MayShow :
          (t : Item × Bool) (page_ref : Bytes) (seen : List Bytes)
          → MayShow lib r (
              if page_ref == []
              then no_viewer
              else option_else (load_page lib r page_ref seen) no_viewer λ page. record page {
                source = viewer_type_default;
                type_rev = t.0.revision;
                requires_auth = page.requires_auth || not t.1;
              })
      typed-MayShow t page_ref seen = elim (Bool-cases (page_ref == [])) [
        | inl e ↦ rw e (no_viewer-MayShow lib r)
        | inr e ↦ rw e (elim (Option-cases (load_page lib r page_ref seen)) [
          | inl n ↦ rw n (no_viewer-MayShow lib r)
          | inr (v, l) ↦ rw l (λ a. inr (
              relabel lib r v _ (load_page-IsShown lib r page_ref seen v access l) refl refl
                (λ q. ground (arith, q))))
        ])
      ]

  related_viewer-MayShow : (item : Item) → MayShow lib r (related_viewer lib r item)
  unfolding related_viewer
  related_viewer-MayShow item =
      let page_ref = first_relation_ref lib item (bytes "page") in
      elim (Bool-cases (page_ref == [])) [
        | inl e ↦ rw e (type_viewer-MayShow item (r.requested_ref ∷ []))
        | inr e ↦ rw e (elim (Option-cases (load_page lib r page_ref (r.requested_ref ∷ []))) [
          | inl n ↦ rw n (type_viewer-MayShow item (page_ref ∷ r.requested_ref ∷ []))
          | inr (v, l) ↦ rw l (λ a. inr (
              relabel lib r v _ (load_page-IsShown lib r page_ref (r.requested_ref ∷ []) v access l)
                refl refl (λ q. q)))
        ])
      ]

  -- With the access check on, a viewer that `primary` selects is the page that was asked for, or a
  -- page in the store with this HTML that the reader may read, and public if no mark says private.
  pub primary-MayShow : MayShow lib r (primary lib r)
  unfolding primary
  primary-MayShow = elim (Option-cases (parse_envelope lib r.requested_content)) [
    | inl n ↦ rw n (no_viewer-MayShow lib r)
    | inr (p, e) ↦ rw e (elim (Bool-cases (ref_of p.1 == r.requested_ref)) [
      | inr o ↦ rw o (no_viewer-MayShow lib r)
      | inl o ↦ rw o (elim (Bool-cases (p.1.kind == bytes "PAGE")) [
        | inl k ↦ rw k (λ a. inl (record {
          env = p.0;
          item = p.1;
          parsed = e;
          requested = (eq_iff (ref_of p.1) r.requested_ref).0 o;
          typed = (eq_iff p.1.kind (bytes "PAGE")).0 k;
          source = refl;
          at = refl;
          own_html = refl;
          marked = λ q. ground (arith, q);
        }))
        | inr k ↦ rw k (related_viewer-MayShow p.1)
      ])
    ])
  ]
