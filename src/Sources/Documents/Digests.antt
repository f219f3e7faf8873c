-- ===== src/Sources/Documents/Digests.antt =====
-- What a source document (identity/sources/models.py) says of its content.
use agent_traffic_intelligen.Prelude.{
  ℕ, String, Option, none, some, List, [], ◌∷◌, true, false, not, ◌==◌, ◌≡◌, any, All, arith,
  eq_iff,
}
use agent_traffic_intelligen.Runtime.{Moment, Runtime}
use agent_traffic_intelligen.Sources.Documents.{
  KeyAuthorityBinding, SourceMetadata, SourceDocument, aware, make_metadata, make_document,
  from_bytes,
}

bindings_agree :
    (digest : String) (bindings : List KeyAuthorityBinding)
    → any (λ b. not (b.body_sha256 == digest)) bindings ≡ false
    → All (λ b. b.body_sha256 ≡ digest) bindings
unfolding any
bindings_agree digest [] h = tt
bindings_agree digest (b ∷ bindings) h =
    (ground (arith, eq_iff b.body_sha256 digest), bindings_agree digest bindings (ground arith))

-- A time that is there is timezone-aware.
abbrev pub AreAware : Option Moment → Type 0
AreAware none = Unit
AreAware (some t) = t.is_aware ≡ true

aware_lem : (o : Option Moment) → aware o ≡ true → AreAware o
aware_lem none h = tt
aware_lem (some t) h = h

-- A document that was made from bytes has those bytes as its content, their SHA-256 as its digest,
-- and only key bindings that were made for the same bytes; its
-- address is not empty, and the times of its retrieval, of its source and of its expiry are timezone-aware.
pub from_bytes_lem :
    (py : Runtime) (fields : SourceMetadata) (content : List ℕ) (d : SourceDocument)
    → from_bytes py fields content ≡ some d
    → (d.content ≡ content)
      × (d.metadata.sha256 ≡ py.sha256 content)
      × All (λ b. b.body_sha256 ≡ py.sha256 content) d.metadata.key_authority_bindings
      × (d.metadata.uri ≡ fields.uri)
      × ((fields.uri == "") ≡ false)
      × (d.metadata.retrieved_at.is_aware ≡ true)
      × AreAware d.metadata.source_created_at
      × AreAware d.metadata.expires_at
unfolding from_bytes make_document make_metadata
from_bytes_lem py fields content d h =
    let digest = eq_iff (py.sha256 content) (py.casefold (py.sha256 content)) in
    let kept : d.metadata.key_authority_bindings ≡ fields.key_authority_bindings =
      ground (arith, digest) in
    let agree : any (λ b. not (b.body_sha256 == py.sha256 content)) fields.key_authority_bindings
        ≡ false =
      ground (arith, digest) in
    (
      ground (arith, digest),
      ground (arith, digest),
      rw kept (bindings_agree (py.sha256 content) fields.key_authority_bindings agree),
      ground (arith, digest),
      ground (arith, digest),
      ground (arith, digest),
      aware_lem d.metadata.source_created_at (ground (arith, digest)),
      aware_lem d.metadata.expires_at (ground (arith, digest)),
    )
