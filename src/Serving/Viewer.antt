-- ===== src/Serving/Viewer.antt =====
-- serving/viewer.go: the HTML page that shows an object, and the choice of a representation. A
-- `visited` map is the list of its keys.
pub mod Readable
pub mod Selected
use dataverse_hub.Base.{
  ℕ, Bool, true, false, ◌&&◌, ◌||◌, not, Option, none, some, List, [], ◌∷◌, ◌++◌, Bytes, bytes,
  ◌==◌, contains, ℤ, pos, itoa, if◌then◌else◌, option_else, Result, ok, err,
}
use dataverse_hub.Base.Dict.{lookup}
use dataverse_hub.External.{Library}
use dataverse_hub.Object.Types.{Item, ObjectMeta, resolve_in, ref_of}
use dataverse_hub.Object.Verify.{parse_envelope}
use dataverse_hub.Realm.Access.{can_read, is_public_object}
use dataverse_hub.Serving.Representation.{
  accepts_html, accepts_mime_type, extract_html, blob_content, decode_blob,
}
use dataverse_hub.Storage.Index.{Index, resolver}
use dataverse_hub.Storage.Store.{Store, read}

pub data ViewerSource : Type 0 where
  viewer_none viewer_inline viewer_direct viewer_type_default viewer_hub_default : ViewerSource

-- `viewerResolution`
pub record ViewerResolution : Type 0 where
  pub source : ViewerSource
  pub page_ref : Bytes
  pub html : Bytes
  pub type_rev : ℤ
  pub page_rev : ℤ
  pub default_rev : ℤ
  pub requires_auth : Bool

abbrev pub no_viewer : ViewerResolution
no_viewer = record {
  source = viewer_none;
  page_ref = [];
  html = [];
  type_rev = pos 0;
  page_rev = pos 0;
  default_rev = pos 0;
  requires_auth = false;
}

abbrev pub is_none : ViewerSource → Bool
is_none viewer_none = true
is_none viewer_inline = false
is_none viewer_direct = false
is_none viewer_type_default = false
is_none viewer_hub_default = false

-- `available`
abbrev pub available : ViewerResolution → Bool
available v = not (is_none v.source) && not (v.html == [])

-- `etagSuffix`
abbrev pub etag_suffix_of : ViewerSource → ViewerResolution → Bytes
etag_suffix_of viewer_none v = bytes "-html"
etag_suffix_of viewer_inline v = bytes "-html"
etag_suffix_of viewer_direct v = bytes "-p" ++ (itoa v.page_rev ++ bytes "-html")
etag_suffix_of viewer_type_default v =
    bytes "-t" ++ (itoa v.type_rev ++ (bytes "-p" ++ (itoa v.page_rev ++ bytes "-html")))
etag_suffix_of viewer_hub_default v =
    bytes "-g" ++ (itoa v.default_rev ++ (bytes "-p" ++ (itoa v.page_rev ++ bytes "-html")))

abbrev pub etag_suffix : ViewerResolution → Bytes
etag_suffix v = etag_suffix_of v.source v

-- `viewerResolver`; `read_fails` says which reads of the store return an error
pub record ViewerResolver : Type 0 where
  pub store : Store
  pub read_fails : Bytes → Bool
  pub index : Index
  pub requested_ref : Bytes
  pub requested_content : Bytes
  pub auth_pubkey : Bytes
  pub enforce_access : Bool

-- what a read gives, `none` for an error or a missing file
unfoldable pub read_content : (Bytes → Bool) → Bytes → Store → Option Bytes
unfolding read
read_content read_fails ref s = elim (read (read_fails ref) ref s) [
  | err e ↦ none
  | ok content ↦ content
]

module _ (lib : Library) where
  -- `firstRelationRef`
  unfoldable pub first_relation_ref : Item → Bytes → Bytes
  first_relation_ref item relation = elim (lookup relation item.relations) [
    | none ↦ []
    | some [] ↦ []
    | some (raw ∷ raws) ↦ option_else (lib.relation_ref raw) [] λ ref. ref
  ]

  module _ (r : ViewerResolver) where
    -- `loadItem`: the item, and whether it is public
    unfoldable pub load_item : Bytes → Bytes → Option (Item × Bool)
    load_item ref required = option_else (read_content r.read_fails ref r.store) none λ content.
        option_else (parse_envelope lib content) none λ p.
          if not (ref_of p.1 == ref)
          then none
          else if not (required == []) && not (p.1.kind == required)
          then none
          else if r.enforce_access
              && not (can_read (resolve_in (p.0) (p.1)) r.auth_pubkey (some (resolver r.index)))
          then none
          else some (p.1, is_public_object (resolve_in (p.0) (p.1)))

    -- `loadPage`; the caller adds the ref to `visited`
    unfoldable pub load_page : Bytes → List Bytes → Option ViewerResolution
    load_page ref visited =
        if ref == [] || contains visited ref
        then none
        else option_else (load_item ref (bytes "PAGE")) none λ p.
          if extract_html lib p.0 == []
          then none
          else some (record no_viewer {
            page_ref = ref;
            html = extract_html lib p.0;
            page_rev = p.0.revision;
            requires_auth = not p.1;
          })

    -- `primary` from the relation type_def on
    unfoldable pub type_viewer : Item → List Bytes → ViewerResolution
    type_viewer item visited =
        let type_ref = first_relation_ref item (bytes "type_def") in
        if type_ref == [] || contains visited type_ref
        then no_viewer
        else option_else (load_item type_ref (bytes "TYPE")) no_viewer λ t.
          let page_ref = first_relation_ref t.0 (bytes "page") in
          if page_ref == []
          then no_viewer
          else option_else (load_page page_ref (type_ref ∷ visited)) no_viewer λ page. record page {
            source = viewer_type_default;
            type_rev = t.0.revision;
            requires_auth = page.requires_auth || not t.1;
          }

    -- `primary` from the relation page on
    unfoldable pub related_viewer : Item → ViewerResolution
    related_viewer item =
        let page_ref = first_relation_ref item (bytes "page") in
        if page_ref == []
        then type_viewer item (r.requested_ref ∷ [])
        else option_else (load_page page_ref (r.requested_ref ∷ []))
            (type_viewer item (page_ref ∷ r.requested_ref ∷ []))
            λ page. record page { source = viewer_direct }

    -- `primary`
    unfoldable pub primary : ViewerResolution
    primary = option_else (parse_envelope lib r.requested_content) no_viewer λ p.
        if not (ref_of p.1 == r.requested_ref)
        then no_viewer
        else if p.1.kind == bytes "PAGE"
        then (record no_viewer {
          source = viewer_inline;
          page_ref = r.requested_ref;
          html = extract_html lib p.1;
          page_rev = p.1.revision;
          requires_auth = not (is_public_object (resolve_in (p.0) (p.1)));
        })
        else related_viewer p.1

    -- `hubDefault` with the item of the configured ref
    unfoldable pub default_viewer : Bytes → Item → Bool → ViewerResolution
    default_viewer default_ref item is_public =
        let page_ref = first_relation_ref item (bytes "page") in
        if item.kind == bytes "PAGE"
        then (if extract_html lib item == [] then no_viewer else record no_viewer {
          source = viewer_hub_default;
          page_ref = default_ref;
          html = extract_html lib item;
          page_rev = item.revision;
          default_rev = item.revision;
          requires_auth = not is_public;
        })
        else if page_ref == []
        then no_viewer
        else option_else (load_page page_ref (r.requested_ref ∷ default_ref ∷ [])) no_viewer λ page.
          record page {
            source = viewer_hub_default;
            default_rev = item.revision;
            requires_auth = page.requires_auth || not is_public;
          }

    -- `hubDefault`
    unfoldable pub hub_default : Bytes → ViewerResolution
    hub_default default_ref =
        if default_ref == [] || default_ref == r.requested_ref
        then no_viewer
        else option_else (load_item default_ref []) no_viewer
            λ p. default_viewer default_ref (p.0) (p.1)
