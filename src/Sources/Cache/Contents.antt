-- ===== src/Sources/Cache/Contents.antt =====
-- What the files of the cache hold after a write (identity/sources/cache.py, identity/sources/manifest.py).
use agent_traffic_intelligen.Prelude.{
  ℕ, String, Option, none, some, List, true, false, ◌==◌, ◌≡◌, refl, subst, ap, ◌∙◌, Bool, arith,
  eq_iff, eq_refl, Bool-cases, inl, inr, if◌then◌else◌,
}
use agent_traffic_intelligen.Prelude.Options.{bind_some, some_subst}
use agent_traffic_intelligen.Json.{Json, Fields, obj, find, get, set}
use agent_traffic_intelligen.Json.Assignment.{find-set_same, get-set_other}
use agent_traffic_intelligen.Runtime.{Runtime}
use agent_traffic_intelligen.Identity.Profiles.{equals_one}
use agent_traffic_intelligen.Sources.Documents.{SourceMetadata, SourceDocument}
use agent_traffic_intelligen.Sources.Records.{to_dict, from_dict}
use agent_traffic_intelligen.Sources.Trust.{Urls}
use agent_traffic_intelligen.Sources.Cache.{
  read_bytes, write_blob, entries_of, with_entries, checked_manifest, load_manifest, document_of,
  with_entry,
}

pub read-write_same :
    (digest : String) (content : List ℕ) (o : Option (List ℕ)) (blobs : List (String × List ℕ))
    → read_bytes digest blobs ≡ o
    → ((c : List ℕ) → o ≡ some c → c ≡ content)
    → read_bytes digest (write_blob digest content o blobs) ≡ some content
unfolding read_bytes write_blob
read-write_same digest content none blobs h same = rw (eq_refl digest) refl
read-write_same digest content (some c) blobs h same = h ∙ ap some (same c refl)

-- Writing a blob changes no blob that is there.
pub read-write_kept :
    (digest other : String) (content c : List ℕ) (o : Option (List ℕ))
    (blobs : List (String × List ℕ))
    → read_bytes digest blobs ≡ o
    → read_bytes other blobs ≡ some c
    → read_bytes other (write_blob digest content o blobs) ≡ some c
unfolding read_bytes write_blob
read-write_kept digest other content c (some k) blobs h e = e
read-write_kept digest other content c none blobs h e = elim (Bool-cases (digest == other)) [
  | inl q ↦ cc (h, e, (eq_iff digest other).0 q)
  | inr q ↦ rw q e
]

module _ (py : Runtime) (urls : Urls) where
  pub document-kept :
      (digest : String) (content : List ℕ) (blobs : List (String × List ℕ)) (v : Option Json)
      (o : Option SourceDocument)
      → document_of py urls blobs v ≡ some o
      → document_of py urls (write_blob digest content (read_bytes digest blobs) blobs) v ≡ some o
  unfolding document_of
  document-kept digest content blobs (some (obj raw)) o h =
      let (m, e, h1) = bind_some (from_dict py raw) _ o h in
      let (c, f, h2) = bind_some (read_bytes m.sha256 blobs) _ o h1 in
      rw (e, read-write_kept digest m.sha256 content c (read_bytes digest blobs) blobs refl f) h2
  document-kept digest content blobs _ o h = h

  -- The manifest that `put` writes has the entries that it sets.
  pub loaded-with_entry :
      (payload entries : Fields) (k : String) (m : SourceMetadata)
      → equals_one py (get "schema_version" payload) ≡ true
      → checked_manifest py (with_entry py urls k m (payload, entries))
        ≡ some (
          set "entries" (obj (set k (obj (to_dict py m)) entries)) payload,
          set k (obj (to_dict py m)) entries,
        )
  unfolding checked_manifest with_entry entries_of with_entries
  loaded-with_entry payload entries k m h =
      let others = obj (set k (obj (to_dict py m)) entries) in
      rw
        (
          checked_manifest,
          get-set_other "entries" "schema_version" others payload refl,
          h,
          find-set_same "entries" others payload,
        )
        refl

  pub schema_kept :
      (b : Bool) (o : Option Fields) (payload p e : Fields)
      → (if b then with_entries payload o else none) ≡ some (p, e)
      → (b ≡ true) × (payload ≡ p)
  unfolding with_entries
  schema_kept false o payload p e h = cc
  schema_kept true none payload p e h = cc
  schema_kept true (some x) payload p e h = (refl, ground arith)

  pub checked_schema :
      (v : Json) (payload entries : Fields)
      → checked_manifest py v ≡ some (payload, entries)
      → equals_one py (get "schema_version" payload) ≡ true
  unfolding checked_manifest
  checked_schema (obj fields) payload entries h =
      let (one, same) =
        schema_kept (equals_one py (get "schema_version" fields))
          (entries_of (find "entries" fields)) fields payload entries h in
      subst (λ p. equals_one py (get "schema_version" p) ≡ true) same one
  checked_schema _ payload entries h = cc

  pub loaded_schema :
      (o : Option Json) (payload entries : Fields)
      → load_manifest py o ≡ some (payload, entries)
      → equals_one py (get "schema_version" payload) ≡ true
  unfolding load_manifest equals_one get find
  loaded_schema none payload entries h =
      some_subst (λ p. equals_one py (get "schema_version" p.0) ≡ true) h refl
  loaded_schema (some v) payload entries h = checked_schema v payload entries h
