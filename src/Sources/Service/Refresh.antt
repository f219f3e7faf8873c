-- ===== src/Sources/Service/Refresh.antt =====
-- identity/source_service.py: the loops over the configured sources.
use agent_traffic_intelligen.Prelude.{
  ℕ, suc, String, Option, none, some, List, [], ◌∷◌, Bool, true, false, ◌==◌, any, keep, not,
  if◌then◌else◌,
}
use agent_traffic_intelligen.Prelude.Options.{◌>>=◌}
use agent_traffic_intelligen.Runtime.{Moment, Runtime}
use agent_traffic_intelligen.Sources.Documents.{type_value, status_value, SourceDocument}
use agent_traffic_intelligen.Sources.Trust.{Urls}
use agent_traffic_intelligen.Sources.Cache.{Store, get_document, put_document}
use agent_traffic_intelligen.Sources.Service.{
  SourceSpec, Service, source_created_at, refreshed_document,
}

abbrev pub has_failed {ℓ} : {A : Type ℓ} → Option A → Bool
has_failed none = true
has_failed (some _) = false

-- A row of `source_status`
pub record StatusRow : Type 0 where
  pub provider : String
  pub uri : String
  pub source_type : String
  pub cached : Bool
  pub sha256 : Option String
  pub retrieved_at : Option String
  pub source_created_at : Option String
  pub expires_at : Option String
  pub validation_status : Option String

module _ (py : Runtime) (urls : Urls) where
  -- A time, or `None`, as text
  unfoldable pub iso_or_none : Option Moment → Option String
  iso_or_none none = none
  iso_or_none (some t) = some (py.isoformat t)

  unfoldable pub status_row : SourceSpec → Option SourceDocument → StatusRow
  status_row spec none = record {
    provider = spec.provider;
    uri = spec.uri;
    source_type = type_value spec.source_type;
    cached = false;
    sha256 = none;
    retrieved_at = none;
    source_created_at = none;
    expires_at = none;
    validation_status = none;
  }
  status_row spec (some d) = record {
    provider = spec.provider;
    uri = spec.uri;
    source_type = type_value spec.source_type;
    cached = true;
    sha256 = some d.metadata.sha256;
    retrieved_at = some (py.isoformat d.metadata.retrieved_at);
    source_created_at = iso_or_none d.metadata.source_created_at;
    expires_at = iso_or_none d.metadata.expires_at;
    validation_status = some (status_value d.metadata.validation_status);
  }

  -- `source_status`: `none` for an exception of the cache.
  unfoldable pub source_status : Store → List SourceSpec → Option (List StatusRow)
  source_status store [] = some []
  source_status store (spec ∷ specs) = do
    document ← get_document py urls store spec.uri
    rows ← source_status store specs
    some (status_row spec document ∷ rows)

  module _ (service : Service) where
    -- Whether a cached document fails to parse.
    unfoldable pub is_invalid : SourceSpec → Option SourceDocument → Bool
    is_invalid spec none = false
    is_invalid spec (some d) =
        has_failed (source_created_at py service spec spec.source_type d.content)

    -- `validate_sources`: the sources it reports, without the texts of the exceptions.
    unfoldable pub validate_sources : Store → List SourceSpec → Option (List SourceSpec)
    validate_sources store [] = some []
    validate_sources store (spec ∷ specs) = do
      document ← get_document py urls store spec.uri
      errors ← validate_sources store specs
      some (if is_invalid spec document then spec ∷ errors else errors)

    -- `cache.put`: the store, and whether the document is an old one, if nothing is raised.
    unfoldable pub store_document : Store → Option (SourceDocument × Bool) → Store × Option Bool
    store_document store none = (store, none)
    store_document store (some (document, old)) =
        let (after, stored) = put_document py urls store document in
        (after, if stored then some old else none)

    unfoldable pub refresh_cached :
        ℕ → SourceSpec → Store → Option (Option SourceDocument) → Store × Option Bool
    refresh_cached n spec store none = (store, none)
    refresh_cached n spec store (some previous) =
        store_document store (refreshed_document py service n spec previous)

    -- One turn of the loop of `refresh_sources`.
    unfoldable pub refresh_one : ℕ → SourceSpec → Store → Store × Option Bool
    refresh_one n spec store = refresh_cached n spec store (get_document py urls store spec.uri)

    -- The loop of `refresh_sources`: the store it leaves, and its two counts if nothing is raised.
    unfoldable pub refresh_from : ℕ → List SourceSpec → Store → ℕ → ℕ → Store × Option (ℕ × ℕ)
    refresh_from n [] store refreshed not_modified = (store, some (refreshed, not_modified))
    refresh_from n (spec ∷ specs) store refreshed not_modified =
        let (after, turn) = refresh_one n spec store in
        elim turn [
          | none ↦ (after, none)
          | some old ↦
              refresh_from (suc n) specs after (if old then refreshed else suc refreshed)
                (if old then suc not_modified else not_modified)
        ]

    -- `spec.provider.casefold() == provider.casefold()`
    unfoldable pub is_provider_spec : String → SourceSpec → Bool
    is_provider_spec provider spec = py.casefold spec.provider == py.casefold provider

    -- `refresh_sources`
    unfoldable pub refresh_sources :
        Option String → List SourceSpec → Store → Store × Option (ℕ × ℕ)
    refresh_sources none specs store = refresh_from 0 specs store 0 0
    refresh_sources (some provider) specs store =
        if not (any (is_provider_spec provider) specs)
        then (store, none)
        else refresh_from 0 (keep (is_provider_spec provider) specs) store 0 0
