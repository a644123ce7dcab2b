-- ===== src/Serving/Viewer/Selected.antt =====
-- serving/viewer.go: the pages that a GET selects are pages that the reader may read.
use mathlib.Core.Option.{some-injective}
use dataverse_hub.Base.{
  ◌≡◌, ◌≢◌, ◌⊎◌, refl, ap, subst, Bool, true, false, ◌&&◌, ◌||◌, not, some, [], ◌∷◌, Bytes, bytes,
  ◌==◌, arith, option_else-inv, if-inv, Bool-cases, Option-cases, inl, inr,
}
use dataverse_hub.External.{Library}
use dataverse_hub.Object.Types.{Item}
use dataverse_hub.Serving.Representation.{
  extract_html, accepts_html, accepts_mime_type, blob_content, decode_blob,
}
use dataverse_hub.Serving.Viewer.{
  ViewerResolution, ViewerResolver, no_viewer, available, first_relation_ref, load_item, load_page,
  primary, default_viewer, hub_default,
}
use dataverse_hub.Serving.Selection.{
  Representation, as_json, as_blob, as_html, select_negotiated, select_default, select_blob,
}
use dataverse_hub.Serving.Viewer.Readable.{
  load_item-IsLoaded, IsInline, IsShown, load_page-IsShown, relabel, primary-MayShow,
}

abbrev is_html : Representation → Bool
is_html as_json = false
is_html (as_blob mime raw) = false
is_html (as_html v) = true

not_html : (b : Representation) → is_html b ≡ false → (v : ViewerResolution) → b ≢ as_html v
not_html b h v e = absurd (cc)

abbrev html_of : Representation → ViewerResolution
html_of as_json = no_viewer
html_of (as_blob mime raw) = no_viewer
html_of (as_html v) = v

html-injective : (v w : ViewerResolution) → as_html v ≡ as_html w → v ≡ w
html-injective v w h = ap html_of h

module _ (lib : Library) (r : ViewerResolver) (access : r.enforce_access ≡ true) where
  default_viewer-IsShown :
      (default_ref : Bytes) (p : Item × Bool)
      → load_item lib r default_ref [] ≡ some p
      → available (default_viewer lib r default_ref (p.0) (p.1)) ≡ true
      → IsShown lib r (default_viewer lib r default_ref (p.0) (p.1))
  unfolding default_viewer ◌==◌
  default_viewer-IsShown default_ref p loaded =
      let page_ref = first_relation_ref lib p.0 (bytes "page") in
      let l = load_item-IsLoaded lib r default_ref [] p access loaded in
      elim (Bool-cases (p.0.kind == bytes "PAGE")) [
        | inl k ↦ simp (k) (elim (Bool-cases (extract_html lib p.0 == [])) [
          | inl e ↦ simp (e) (λ a. absurd (cc))
          | inr e ↦ simp (e) (λ a. record {
            item = p.0;
            is_public = p.1;
            page = record {
              content = l.content;
              env = l.env;
              stored = l.stored;
              parsed = l.parsed;
              own = l.own;
              typed = k;
              allowed = l.allowed;
              public = l.public;
            };
            own_html = refl;
            marked = λ q. ground (arith, q);
          })
        ])
        | inr k ↦ simp (k) (elim (Bool-cases (page_ref == [])) [
          | inl e ↦ simp (e) (λ a. absurd (cc))
          | inr e ↦
              simp (e)
                (elim (Option-cases
                  (load_page lib r page_ref (r.requested_ref ∷ default_ref ∷ []))) [
                    | inl n ↦ simp (n) (λ a. absurd (cc))
                    | inr (v, s) ↦ simp (s) (λ a.
                        relabel lib r v _
                          (load_page-IsShown lib r page_ref (r.requested_ref ∷ default_ref ∷ []) v
                            access s)
                          refl refl (λ q. ground (arith, q)))
                  ])
        ])
      ]

  hub_default-IsShown :
      (default_ref : Bytes)
      → available (hub_default lib r default_ref) ≡ true
      → IsShown lib r (hub_default lib r default_ref)
  unfolding hub_default
  hub_default-IsShown default_ref =
      elim (Bool-cases (default_ref == [] || default_ref == r.requested_ref)) [
        | inl e ↦ rw e (λ a. absurd (cc))
        | inr e ↦ rw e (elim (Option-cases (load_item lib r default_ref [])) [
          | inl n ↦ rw n (λ a. absurd (cc))
          | inr (p, l) ↦ rw l (default_viewer-IsShown default_ref p l)
        ])
      ]

  selected_primary :
      (accept : Bytes) (v : ViewerResolution)
      → (accepts_html accept && available (primary lib r)) ≡ true
      → as_html (primary lib r) ≡ as_html v
      → IsInline lib r v ⊎ IsShown lib r v
  selected_primary accept v e h =
      subst (λ w. IsInline lib r w ⊎ IsShown lib r w) (html-injective _ _ h)
        (primary-MayShow lib r access (ground (arith, e)))

  select_default-IsShown :
      (default_ref accept : Bytes) (v : ViewerResolution)
      → select_default lib r default_ref accept ≡ as_html v
      → IsShown lib r v
  unfolding select_default
  select_default-IsShown default_ref accept v h =
      elim (Bool-cases (accepts_html accept && available (hub_default lib r default_ref))) [
        | inl e ↦
            subst (IsShown lib r) (html-injective _ _ (rw e at h))
              (hub_default-IsShown default_ref (ground (arith, e)))
        | inr e ↦ absurd (not_html as_json refl v (rw e at h))
      ]

  select_blob-not_html :
      (default_ref accept : Bytes) (b : Representation)
      → select_blob lib r default_ref accept ≡ some b
      → is_html b ≡ false
  unfolding select_blob
  select_blob-not_html default_ref accept b h =
      let (p, _, h1) = option_else-inv (blob_content lib r.requested_content) _ _ h (cc) in
      let (_, h2) = if-inv (not (accepts_mime_type accept p.mime)) _ _ h1 (cc) in
      let (raw, _, h3) = option_else-inv (decode_blob lib p) _ _ h2 (cc) in
      subst (λ x. is_html x ≡ false) (some-injective _ _ h3) refl

  -- The HTML that a negotiated GET answers with, if the access check is on, is that of the object that
  -- was asked for, which is then a PAGE, or that of a page in the store that the reader may read; and
  -- that object or page is public if the answer is not marked as private.
  pub select_negotiated-IsShown :
      (default_ref accept : Bytes) (v : ViewerResolution)
      → select_negotiated lib r default_ref accept ≡ as_html v
      → IsInline lib r v ⊎ IsShown lib r v
  unfolding select_negotiated
  select_negotiated-IsShown default_ref accept v h =
      elim (Bool-cases (accepts_html accept && available (primary lib r))) [
        | inl e ↦ selected_primary accept v e (rw e at h)
        | inr e ↦ elim (Option-cases (select_blob lib r default_ref accept)) [
          | inr (b, q) ↦
              absurd (not_html b (select_blob-not_html default_ref accept b q) v (rw (e, q) at h))
          | inl q ↦ inr (select_default-IsShown default_ref accept v (rw (e, q) at h))
        ]
      ]
