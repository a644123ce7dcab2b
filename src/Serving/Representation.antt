-- ===== src/Serving/Representation.antt =====
-- What a GET may answer with: the tests of the header Accept and the content of a BLOB, in
-- serving/handlers.go and serving/projection.go.
use dataverse_hub.Base.{
  Bool, false, ◌&&◌, ◌||◌, not, Option, none, some, [], ◌++◌, Bytes, bytes, ◌==◌, any,
  if◌then◌else◌, option_else,
}
use dataverse_hub.Base.Affix.{has_byte, before_first}
use dataverse_hub.Base.Trim.{trim_space, split_commas}
use dataverse_hub.External.{Library}
use dataverse_hub.Object.Types.{Item}
use dataverse_hub.Object.Verify.{parse_envelope}

-- the media type of a part of the header
abbrev pub media_type : Bytes → Bytes
media_type part = trim_space (before_first b';' part)

-- `acceptsHTML`, of the header Accept
unfoldable pub accepts_html : Bytes → Bool
accepts_html accept = any (λ part. media_type part == bytes "text/html") (split_commas accept)

-- `acceptsMimeType`
unfoldable pub accepts_mime_type : Bytes → Bytes → Bool
accepts_mime_type accept mime =
    if mime == []
    then false
    else if not (has_byte b'/' mime)
    then false
    else any
        (λ part.
          media_type part == mime
          || media_type part == (before_first b'/' mime ++ bytes "/*")
          || media_type part == bytes "*/*")
        (split_commas accept)

-- `extractHTML`
unfoldable pub extract_html : Library → Item → Bytes
extract_html lib item =
    if item.content == [] then [] else option_else (lib.html_content item.content) [] λ html. html

-- `blobPayload`, without the ref that it logs
pub record BlobPayload : Type 0 where
  pub mime : Bytes
  pub encoded : Bytes
  pub text : Bytes

-- `blobContent`
unfoldable pub blob_content : Library → Bytes → Option BlobPayload
blob_content lib content = option_else (parse_envelope lib content) none λ p.
    if not (p.1.kind == bytes "BLOB") || p.1.content == []
    then none
    else option_else (lib.blob_fields p.1.content) none λ fields.
      if fields.0 == []
      then none
      else if fields.1 == [] && fields.2 == []
      then none
      else some (record { mime = fields.0; encoded = fields.1; text = fields.2 })

-- `blobPayload.decode`
unfoldable pub decode_blob : Library → BlobPayload → Option Bytes
decode_blob lib b = if not (b.text == []) then some b.text else lib.decode_base64 b.encoded

-- `blobRaw`
unfoldable pub blob_raw : Library → Bytes → Option (Bytes × Bytes)
blob_raw lib content =
    option_else (blob_content lib content) none
      λ b. option_else (decode_blob lib b) none λ raw. some (b.mime, raw)

-- `pageOwnHTML`
unfoldable pub page_own_html : Library → Bytes → Bytes
page_own_html lib content =
    option_else (parse_envelope lib content) []
      λ p. if not (p.1.kind == bytes "PAGE") then [] else extract_html lib p.1
