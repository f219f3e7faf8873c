-- ===== src/Sources/Service/Refreshed.antt =====
-- What a refreshed document of identity/source_service.py is.
use agent_traffic_intelligen.Prelude.{
  ℕ, String, Option, none, some, List, Bool, true, false, not, ◌&&◌, ◌≡◌, refl, sym, ◌∙◌, ap, arith,
  eq_iff, if◌then◌else◌,
}
use agent_traffic_intelligen.Prelude.Options.{bind_some, some_subst}
use agent_traffic_intelligen.Runtime.{Moment, Runtime}
use agent_traffic_intelligen.Sources.Documents.{
  SourceType, ip_ranges, key_directory, jwk_set, agent_card, standard_profile, SourceAcquisition,
  SourceMetadata, SourceDocument, from_bytes, make_metadata, make_document,
}
use agent_traffic_intelligen.Sources.Exchange.{FetchResult}
use agent_traffic_intelligen.Sources.Service.{
  SourceSpec, Service, is_directory_type, is_discovery_status, later, range_snapshot_validity,
  expires_at_of, time_or_old, document_from_result, revalidated_document, document_for, etag_of,
  last_modified_of, refreshed_document, is_media_type, source_created_at, key_authority_bindings_of,
}

module _ (py : Runtime) where
  -- The document has the given metadata but for the digest, which is of its content.
  HasFields : SourceMetadata → List ℕ → SourceDocument → Type 0
  HasFields fields content d =
      (d.content ≡ content)
      × (d.metadata.uri ≡ fields.uri)
      × (d.metadata.retrieved_at ≡ fields.retrieved_at)
      × (d.metadata.sha256 ≡ py.sha256 content)
      × (d.metadata.expires_at ≡ fields.expires_at)
      × (d.metadata.key_authority_bindings ≡ fields.key_authority_bindings)
      × (d.metadata.acquisition ≡ fields.acquisition)

  from_bytes-HasFields :
      (fields : SourceMetadata) (content : List ℕ) (d : SourceDocument)
      → from_bytes py fields content ≡ some d
      → HasFields fields content d
  unfolding from_bytes make_document make_metadata HasFields
  from_bytes-HasFields fields content d h =
      let digest = eq_iff (py.sha256 content) (py.casefold (py.sha256 content)) in
      (
        ground (arith, digest),
        ground (arith, digest),
        ground (arith, digest),
        ground (arith, digest),
        ground (arith, digest),
        ground (arith, digest),
        ground (arith, digest),
      )

  module _ (service : Service) where
    -- An answer that is new gives the content, fetched directly; one that says "not modified" keeps the
    -- content of the cached document, with its key bindings and its acquisition.
    abbrev pub IsFrom : Bool → Option SourceDocument → FetchResult → SourceDocument → Type 0
    IsFrom false previous result d =
        (result.body ≡ some d.content) × (d.metadata.acquisition ≡ SourceAcquisition.direct_https)
    IsFrom true none result d = ⊥
    IsFrom true (some p) result d =
        (d.content ≡ p.content)
        × (d.metadata.key_authority_bindings ≡ p.metadata.key_authority_bindings)
        × (d.metadata.acquisition ≡ p.metadata.acquisition)

    -- A range snapshot expires at the end of its fixed period.
    abbrev pub IsSnapshot : SourceType → Moment → Option Moment → Type 0
    IsSnapshot ip_ranges retrieved_at expires_at =
        expires_at ≡ some (later retrieved_at range_snapshot_validity)
    IsSnapshot _ retrieved_at expires_at = Unit

    -- A document for the source at the time, with the digest of its content.
    abbrev pub IsDocumentOf : SourceSpec → Moment → SourceDocument → Type 0
    IsDocumentOf spec retrieved_at d =
        (d.metadata.uri ≡ spec.uri)
        × (d.metadata.retrieved_at ≡ retrieved_at)
        × (d.metadata.sha256 ≡ py.sha256 d.content)
        × IsSnapshot spec.source_type retrieved_at d.metadata.expires_at

    new-IsSnapshot :
        (t : SourceType) (at_time : Moment) (c : Option String) (e : Option Moment)
        → e ≡ expires_at_of py service t at_time c
        → IsSnapshot t at_time e
    unfolding expires_at_of
    new-IsSnapshot ip_ranges at_time c e h = h
    new-IsSnapshot key_directory at_time c e h = tt
    new-IsSnapshot jwk_set at_time c e h = tt
    new-IsSnapshot agent_card at_time c e h = tt
    new-IsSnapshot standard_profile at_time c e h = tt

    old-IsSnapshot :
        (t : SourceType) (at_time : Moment) (c : Option String) (old e : Option Moment)
        → e ≡ time_or_old py service (expires_at_of py service t at_time c) old
        → IsSnapshot t at_time e
    unfolding expires_at_of time_or_old
    old-IsSnapshot ip_ranges at_time c old e h = h
    old-IsSnapshot key_directory at_time c old e h = tt
    old-IsSnapshot jwk_set at_time c old e h = tt
    old-IsSnapshot agent_card at_time c old e h = tt
    old-IsSnapshot standard_profile at_time c old e h = tt

    new_document :
        (spec : SourceSpec) (previous : Option SourceDocument) (result : FetchResult)
        (at_time : Moment) (d : SourceDocument)
        → document_from_result py service spec result at_time ≡ some d
        → IsDocumentOf spec at_time d × IsFrom false previous result d
    unfolding document_from_result HasFields
    new_document spec previous result at_time d h =
        let (body, e, h1) = bind_some result.body _ d h in
        let (created, _, h2) =
          bind_some
            (if is_media_type py service spec.source_type result.content_type
              then source_created_at py service spec spec.source_type body
              else none)
            _ d h1 in
        let (bindings, _, h3) =
          bind_some (key_authority_bindings_of py service spec spec.source_type result body at_time)
            _ d h2 in
        let (content, uri, retrieved, digest, expires, bound, acquired) =
          from_bytes-HasFields _ body d h3 in
        (
          (
            uri,
            retrieved,
            digest ∙ ap py.sha256 (sym content),
            new-IsSnapshot spec.source_type at_time result.cache_control d.metadata.expires_at
                expires,
          ),
          (e ∙ ap some (sym content), acquired),
        )

    old_document :
        (spec : SourceSpec) (p : SourceDocument) (result : FetchResult) (at_time : Moment)
        (d : SourceDocument)
        → revalidated_document py service spec p result at_time ≡ some d
        → IsDocumentOf spec at_time d × IsFrom true (some p) result d
    unfolding revalidated_document HasFields
    old_document spec p result at_time d h =
        let (content, uri, retrieved, digest, expires, bound, acquired) =
          from_bytes-HasFields _ p.content d h in
        (
          (
            uri,
            retrieved,
            digest ∙ ap py.sha256 (sym content),
            old-IsSnapshot spec.source_type at_time result.cache_control p.metadata.expires_at
                d.metadata.expires_at expires,
          ),
          (content, bound, acquired),
        )

    document_lem :
        (spec : SourceSpec) (previous : Option SourceDocument) (result : FetchResult)
        (at_time : Moment) (old : Bool) (d : SourceDocument)
        → document_for py service spec previous result at_time old ≡ some d
        → IsDocumentOf spec at_time d × IsFrom old previous result d
    unfolding document_for
    document_lem spec none result at_time true d h = cc
    document_lem spec (some p) result at_time true d h = old_document spec p result at_time d h
    document_lem spec none result at_time false d h = new_document spec none result at_time d h
    document_lem spec (some p) result at_time false d h =
        new_document spec (some p) result at_time d h

    discovery_status :
        (b c : Bool) (result checked : FetchResult)
        → (if b && not c then none else some result) ≡ some checked
        → (b ≡ true → c ≡ true)
    discovery_status true true result checked h k = refl
    discovery_status true false result checked h k = cc
    discovery_status false c result checked h k = cc

    -- A turn of the refresh that puts a document puts one for its source, retrieved now, with the digest of
    -- its content and, for a published range list, valid for just seven days; for a key directory the
    -- answer had status 200 or 304 and no redirect. A new answer gives the content; a "not modified"
    -- answer needs a cached document, and keeps its content, its key bindings and its acquisition.
    pub refreshed-IsDocumentOf :
        (n : ℕ) (spec : SourceSpec) (previous : Option SourceDocument) (d : SourceDocument)
        (old : Bool)
        → refreshed_document py service n spec previous ≡ some (d, old)
        → IsDocumentOf spec (service.now n) d
          × ((result : FetchResult) × (service.fetch n spec.uri
                  (etag_of py service previous)
                  (last_modified_of py service previous)
                  (not (is_directory_type spec.source_type))
                ≡ some result)
              × (is_directory_type spec.source_type ≡ true → is_discovery_status result ≡ true)
              × (result.not_modified ≡ old)
              × IsFrom old previous result d)
    unfolding refreshed_document
    refreshed-IsDocumentOf n spec previous d old h =
        let (result, fetched, h1) =
          bind_some
            (service.fetch n spec.uri (etag_of py service previous)
              (last_modified_of py service previous) (not (is_directory_type spec.source_type)))
            _ (d, old) h in
        let (checked, status, h2) =
          bind_some
            (if is_directory_type spec.source_type && not (is_discovery_status result)
              then none
              else some result)
            _ (d, old) h1 in
        let (document, made, h3) =
          bind_some
            (document_for py service spec previous result (service.now n) result.not_modified) _
            (d, old) h2 in
        let (current, from) =
          document_lem spec previous result (service.now n) result.not_modified document made in
        some_subst
          (λ p.
            IsDocumentOf spec (service.now n) p.0
            × ((result : FetchResult) × (service.fetch n spec.uri (etag_of py service previous)
                    (last_modified_of py service previous)
                    (not (is_directory_type spec.source_type))
                  ≡ some result)
                × (is_directory_type spec.source_type ≡ true → is_discovery_status result ≡ true)
                × (result.not_modified ≡ p.1)
                × IsFrom p.1 previous result p.0))
          h3
          (
            current,
            (
              result,
              fetched,
              discovery_status (is_directory_type spec.source_type) (is_discovery_status result)
                  result checked status,
              refl,
              from,
            ),
          )
