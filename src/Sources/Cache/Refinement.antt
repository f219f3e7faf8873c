-- ===== src/Sources/Cache/Refinement.antt =====
-- The cache of identity/sources/cache.py as a map from canonical addresses to documents.
use agent_traffic_intelligen.Prelude.{
  ℕ, String, Option, none, some, List, true, ◌==◌, ◌≡◌, refl, sym, subst, ◌∙◌, All, arith, eq_iff,
  Bool-cases, inl, inr, if◌then◌else◌,
}
use agent_traffic_intelligen.Prelude.Options.{bind_some, some_subst}
use agent_traffic_intelligen.Json.{Json, Fields, obj, find, set}
use agent_traffic_intelligen.Json.Assignment.{find-set_same, find-set_other}
use agent_traffic_intelligen.Runtime.{Moment, Runtime}
use agent_traffic_intelligen.Sources.Documents.{
  KeyAuthorityBinding, SourceMetadata, SourceDocument, make_binding, make_metadata, make_document,
  is_digest,
}
use agent_traffic_intelligen.Sources.Records.{to_dict, from_dict}
use agent_traffic_intelligen.Sources.Records.RoundTrip.{from_dict-to_dict}
use agent_traffic_intelligen.Sources.Trust.{Urls, canonicalize_source_uri}
use agent_traffic_intelligen.Sources.Cache.{
  Store, read_bytes, write_blob, load_manifest, document_of, get_document, with_entry, put_at,
  put_document,
}
use agent_traffic_intelligen.Sources.Cache.Contents.{
  read-write_same, document-kept, loaded-with_entry, loaded_schema,
}

same_some : (a b : String) → some a ≡ some b → a ≡ b
same_some a b h = ground arith

same_pair : (a b : Fields × Fields) → some a ≡ some b → a ≡ b
same_pair a b h = some_subst (λ x. a ≡ x) h refl

module _ (py : Runtime) (urls : Urls) where
  -- The store holds, under every address that has a canonical form, what the map says.
  abbrev pub Represents : Store → (String → Option SourceDocument) → Type 0
  Represents store documents =
      (uri k : String)
      → canonicalize_source_uri py urls uri ≡ some k
      → get_document py urls store uri ≡ some (documents k)

  loaded_of :
      (store : Store) (documents : String → Option SourceDocument) (uri k : String)
      → Represents store documents
      → canonicalize_source_uri py urls uri ≡ some k
      → (payload : Fields) × (entries : Fields) × (load_manifest py store.manifest
          ≡ some (payload, entries))
        × (document_of py urls store.blobs (find k entries) ≡ some (documents k))
  unfolding get_document
  loaded_of store documents uri k r e =
      let (k1, e1, h1) =
        bind_some (canonicalize_source_uri py urls uri) _ (documents k) (r uri k e) in
      let ((payload, entries), l, h2) =
        bind_some (load_manifest py store.manifest) _ (documents k) h1 in
      (
        payload,
        entries,
        l,
        subst (λ x. document_of py urls store.blobs (find x entries) ≡ some (documents k))
            (same_some k1 k (sym e1 ∙ e)) h2,
      )

  -- The store that `put` leaves where nothing is raised.
  stored : Store → SourceDocument → String → Fields × Fields → Store
  stored store document k loaded = record {
    blobs =
        write_blob document.metadata.sha256 document.content
          (read_bytes document.metadata.sha256 store.blobs) store.blobs;
    manifest = some (with_entry py urls k document.metadata loaded);
  }

  put-stored :
      (store : Store) (document : SourceDocument) (k : String) (loaded : Fields × Fields)
      → canonicalize_source_uri py urls document.metadata.uri ≡ some k
      → load_manifest py store.manifest ≡ some loaded
      → put_document py urls store document ≡ (stored store document k loaded, true)
  unfolding put_document put_at stored
  put-stored store document k loaded e l = rw (put_document, e, put_at, l) refl

  found_after :
      (k other : String) (v : Json) (entries : Fields)
      → (k == other) ≡ true
      → find other (set k v entries) ≡ some v
  found_after k other v entries e =
      subst (λ x. find x (set k v entries) ≡ some v) ((eq_iff k other).0 e)
        (find-set_same k v entries)

  document-written :
      (store : Store) (document : SourceDocument)
      → from_dict py (to_dict py document.metadata) ≡ some document.metadata
      → make_document py document.metadata document.content ≡ some document
      → ((c : List ℕ)
          → read_bytes document.metadata.sha256 store.blobs ≡ some c
          → c ≡ document.content)
      → document_of py urls
          (write_blob document.metadata.sha256 document.content
            (read_bytes document.metadata.sha256 store.blobs)
            store.blobs)
          (some (obj (to_dict py document.metadata)))
        ≡ some (some document)
  unfolding document_of
  document-written store document read made agree =
      let written =
        read-write_same document.metadata.sha256 document.content
          (read_bytes document.metadata.sha256 store.blobs) store.blobs refl agree in
      rw (document_of, read, written, made) refl

  entry_after :
      (store : Store) (document : SourceDocument) (entries : Fields) (o : Option SourceDocument)
      (k other : String)
      → from_dict py (to_dict py document.metadata) ≡ some document.metadata
      → make_document py document.metadata document.content ≡ some document
      → ((c : List ℕ)
          → read_bytes document.metadata.sha256 store.blobs ≡ some c
          → c ≡ document.content)
      → document_of py urls store.blobs (find other entries) ≡ some o
      → document_of py urls
          (write_blob document.metadata.sha256 document.content
            (read_bytes document.metadata.sha256 store.blobs)
            store.blobs)
          (find other (set k (obj (to_dict py document.metadata)) entries))
        ≡ some (if k == other then some document else o)
  unfolding document_of
  entry_after store document entries o k other read made agree h = elim (Bool-cases (k == other)) [
    | inl e ↦
        rw (e, found_after k other (obj (to_dict py document.metadata)) entries e)
          (document-written store document read made agree)
    | inr e ↦
        rw (e, find-set_other k other (obj (to_dict py document.metadata)) entries e)
          (document-kept py urls document.metadata.sha256 document.content store.blobs
            (find other entries) o h)
  ]

  -- The map with a document under one more address.
  abbrev pub update :
      (String → Option SourceDocument) → String → SourceDocument → String → Option SourceDocument
  update documents k document other = if k == other then some document else documents other

  stored-Represents :
      (store : Store) (documents : String → Option SourceDocument) (document : SourceDocument)
      (k : String) (payload entries : Fields)
      → from_dict py (to_dict py document.metadata) ≡ some document.metadata
      → make_document py document.metadata document.content ≡ some document
      → ((c : List ℕ)
          → read_bytes document.metadata.sha256 store.blobs ≡ some c
          → c ≡ document.content)
      → load_manifest py store.manifest ≡ some (payload, entries)
      → Represents store documents
      → Represents (stored store document k (payload, entries)) (update documents k document)
  unfolding get_document load_manifest stored
  stored-Represents store documents document k payload entries read made agree l r uri other e =
      let (payload1, entries1, l1, h) = loaded_of store documents uri other r e in
      let h1 =
        subst (λ p. document_of py urls store.blobs (find other p.1) ≡ some (documents other))
          (same_pair (payload1, entries1) (payload, entries) (sym l1 ∙ l)) h in
      rw
        (
          e,
          loaded-with_entry py urls payload entries k document.metadata
              (loaded_schema py urls store.manifest payload entries l),
        )
        (entry_after store document entries (documents other) k other read made agree h1)

-- Putting a document into a cache that holds the documents of a map succeeds, and leaves a cache that
-- holds those of the map with the document at its canonical address, if no other content is stored under
-- its digest; the document and its bindings are as their constructors made them, `fromisoformat` reads
-- what `isoformat` writes and refuses the empty text, and case folding keeps a digest in lower case.
pub put_refines :
    (py : Runtime) (urls : Urls)
    → ((t : Moment) → py.fromisoformat (py.isoformat t) ≡ some t)
    → py.fromisoformat "" ≡ none
    → ((d : String) → is_digest d ≡ true → py.casefold d ≡ d)
    → (store : Store) (documents : String → Option SourceDocument) (document : SourceDocument)
      (fields : SourceMetadata) (k : String)
    → make_metadata py fields ≡ some document.metadata
    → All
        (λ b. (g : KeyAuthorityBinding) × (make_binding py g ≡ some b))
        document.metadata.key_authority_bindings
    → make_document py document.metadata document.content ≡ some document
    → canonicalize_source_uri py urls document.metadata.uri ≡ some k
    → ((c : List ℕ)
        → read_bytes document.metadata.sha256 store.blobs ≡ some c
        → c ≡ document.content)
    → Represents py urls store documents
    → ((put_document py urls store document).1 ≡ true)
      × Represents py urls
          (put_document py urls store document).0
          (update py urls documents k document)
put_refines py urls iso_read no_empty fold_digest store documents document fields k made bound whole
      e agree r =
    let read =
      from_dict-to_dict py iso_read no_empty fold_digest fields document.metadata made bound in
    let (payload, entries, l, h) = loaded_of py urls store documents document.metadata.uri k r e in
    let put = put-stored py urls store document k (payload, entries) e l in
    subst (λ p. (p.1 ≡ true) × Represents py urls p.0 (update py urls documents k document))
      (sym put)
      (
        refl,
        stored-Represents py urls store documents document k payload entries read whole agree l r,
      )
