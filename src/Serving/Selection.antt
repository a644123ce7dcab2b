-- ===== src/Serving/Selection.antt =====
-- serving/viewer.go: the choice of a representation and its ETag.
use dataverse_hub.Base.{
  ◌&&◌, not, Option, none, some, [], ◌++◌, Bytes, bytes, ◌==◌, ℤ, itoa, if◌then◌else◌, option_else,
}
use dataverse_hub.External.{Library}
use dataverse_hub.Object.Types.{ObjectMeta}
use dataverse_hub.Serving.Representation.{
  accepts_html, accepts_mime_type, blob_content, decode_blob,
}
use dataverse_hub.Serving.Viewer.{
  ViewerResolution, ViewerResolver, available, etag_suffix, primary, hub_default,
}

-- `selectedRepresentation`
pub data Representation : Type 0 where
  as_json : Representation
  as_blob : Bytes → Bytes → Representation
  as_html : ViewerResolution → Representation

abbrev pub etag_text : ℤ → Bytes → Bytes
etag_text revision suffix = bytes "\"" ++ (itoa revision ++ (suffix ++ bytes "\""))

-- `selectedRepresentation.etag`
unfoldable pub representation_etag : ℤ → Representation → Bytes
representation_etag revision as_json = etag_text revision []
representation_etag revision (as_blob mime raw) = etag_text revision (bytes "-blob")
representation_etag revision (as_html v) = etag_text revision (etag_suffix v)

-- `indexedNonHTMLValidator`, of the header Accept
unfoldable pub indexed_validator : Bytes → ObjectMeta → Option Bytes
indexed_validator accept meta =
    if accepts_html accept
    then none
    else some (
        if meta.kind == bytes "BLOB"
          && not (meta.mime_type == [])
          && accepts_mime_type accept meta.mime_type
        then etag_text meta.revision (bytes "-blob")
        else etag_text meta.revision [])

module _ (lib : Library) (r : ViewerResolver) (default_ref : Bytes) where
  -- `selectPageRepresentation`
  unfoldable pub select_page : Option ViewerResolution
  select_page =
      if available (primary lib r)
      then some (primary lib r)
      else if available (hub_default lib r default_ref)
      then some (hub_default lib r default_ref)
      else none

  -- `selectNegotiatedRepresentation` after the primary viewer and the BLOB
  unfoldable pub select_default : Bytes → Representation
  select_default accept =
      if accepts_html accept && available (hub_default lib r default_ref)
      then as_html (hub_default lib r default_ref)
      else as_json

  -- the raw BLOB, if the header accepts it
  unfoldable pub select_blob : Bytes → Option Representation
  select_blob accept = option_else (blob_content lib r.requested_content) none λ b.
      if not (accepts_mime_type accept b.mime)
      then none
      else option_else (decode_blob lib b) none λ raw. some (as_blob b.mime raw)

  -- `selectNegotiatedRepresentation`
  unfoldable pub select_negotiated : Bytes → Representation
  select_negotiated accept =
      if accepts_html accept && available (primary lib r)
      then as_html (primary lib r)
      else option_else (select_blob accept) (select_default accept) λ blob. blob
