-- ===== src/Sources/Cache.antt =====
-- identity/sources/cache.py and identity/sources/manifest.py: the offline cache of source documents.
-- The files are its state: the blobs by digest, and the JSON value that the manifest file holds, if
-- it exists. Writing a file is one step, as the code replaces files atomically.
pub mod Contents
pub mod Refinement
use agent_traffic_intelligen.Prelude.{
  ℕ, String, Option, none, some, List, [], ◌∷◌, Bool, true, false, ◌==◌, if◌then◌else◌,
}
use agent_traffic_intelligen.Prelude.Int.{pos}
use agent_traffic_intelligen.Prelude.Options.{◌>>=◌}
use agent_traffic_intelligen.Json.{Json, Fields, int, obj, end, field, find, get, set}
use agent_traffic_intelligen.Runtime.{Runtime}
use agent_traffic_intelligen.Identity.Profiles.{equals_one}
use agent_traffic_intelligen.Sources.Documents.{SourceMetadata, SourceDocument, make_document}
use agent_traffic_intelligen.Sources.Records.{to_dict, from_dict}
use agent_traffic_intelligen.Sources.Trust.{Urls, canonicalize_source_uri}

-- The files under the root of a `SourceCache`.
pub record Store : Type 0 where
  pub blobs : List (String × List ℕ)
  pub manifest : Option Json

-- `self._blob_path(digest).read_bytes()`: `none` where there is no such file.
unfoldable pub read_bytes : String → List (String × List ℕ) → Option (List ℕ)
read_bytes digest [] = none
read_bytes digest ((d, content) ∷ rest) =
    let others = read_bytes digest rest in if d == digest then some content else others

-- The blob that `put` writes where there is none yet.
unfoldable pub write_blob :
    String → List ℕ → Option (List ℕ) → List (String × List ℕ) → List (String × List ℕ)
write_blob digest content none blobs = (digest, content) ∷ blobs
write_blob digest content (some _) blobs = blobs

-- `payload["entries"]`, which must be an object
unfoldable pub entries_of : Option Json → Option Fields
entries_of (some (obj entries)) = some entries
entries_of _ = none

unfoldable pub with_entries : Fields → Option Fields → Option (Fields × Fields)
with_entries payload none = none
with_entries payload (some entries) = some (payload, entries)

-- The payload of a manifest file, with its entries.
unfoldable pub checked_manifest : Runtime → Json → Option (Fields × Fields)
checked_manifest py (obj payload) =
    if equals_one py (get "schema_version" payload)
    then with_entries payload (entries_of (find "entries" payload))
    else none
checked_manifest py _ = none

-- The manifest of an empty cache.
abbrev pub empty_manifest : Fields
empty_manifest = field "schema_version" (int (pos 1)) (field "entries" (obj end) end)

-- `load_manifest`, with the entries that its callers take
unfoldable pub load_manifest : Runtime → Option Json → Option (Fields × Fields)
unfolding checked_manifest
load_manifest py none = some (empty_manifest, end)
load_manifest py (some payload) = checked_manifest py payload

module _ (py : Runtime) (urls : Urls) where
  -- The document of a manifest entry: `some none` where the entry is no object.
  unfoldable pub document_of : List (String × List ℕ) → Option Json → Option (Option SourceDocument)
  document_of blobs (some (obj raw)) = do
    metadata ← from_dict py raw
    content ← read_bytes metadata.sha256 blobs
    document ← make_document py metadata content
    some (some document)
  document_of blobs _ = some none

  -- `SourceCache.get`: `none` for any exception.
  unfoldable pub get_document : Store → String → Option (Option SourceDocument)
  get_document store uri = do
    canonical_uri ← canonicalize_source_uri py urls uri
    (payload, entries) ← load_manifest py store.manifest
    document_of store.blobs (find canonical_uri entries)

  -- The manifest with a new entry.
  unfoldable pub with_entry : String → SourceMetadata → Fields × Fields → Json
  with_entry canonical_uri metadata (payload, entries) =
      obj (set "entries" (obj (set canonical_uri (obj (to_dict py metadata)) entries)) payload)

  -- The store after the blob is written, and after the manifest is, where it can be read.
  unfoldable pub put_at : Store → SourceDocument → Option String → Store × Bool
  put_at store document none = (store, false)
  put_at store document (some canonical_uri) =
      let digest = document.metadata.sha256 in
      let blobs = write_blob digest document.content (read_bytes digest store.blobs) store.blobs in
      elim (load_manifest py store.manifest) [
        | none ↦ (record { blobs = blobs; manifest = store.manifest }, false)
        | some loaded ↦ (
          record {
            blobs = blobs;
            manifest = some (with_entry canonical_uri document.metadata loaded);
          },
          true,
        )
      ]

  -- `SourceCache.put`: the store it leaves, and whether it raised nothing.
  unfoldable pub put_document : Store → SourceDocument → Store × Bool
  put_document store document =
      put_at store document (canonicalize_source_uri py urls document.metadata.uri)
