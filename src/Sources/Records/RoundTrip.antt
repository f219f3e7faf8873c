-- ===== src/Sources/Records/RoundTrip.antt =====
-- Source metadata (identity/sources/models.py) is read back as it was written.
use agent_traffic_intelligen.Prelude.{
  String, Option, none, some, List, [], ◌∷◌, ◌==◌, ◌≡◌, refl, true, false, ap, All, ◌∙◌, arith,
  eq_iff, Bool-cases, inl, inr,
}
use agent_traffic_intelligen.Json.{str, find, get}
use agent_traffic_intelligen.Runtime.{Moment, Runtime}
use agent_traffic_intelligen.Identity.Evidence.{BindingScope, scope_value}
use agent_traffic_intelligen.Sources.Documents.{
  SourceType, ValidationStatus, SourceAcquisition, type_value, status_value, acquisition_value,
  KeyAuthorityBinding, SourceMetadata, make_binding, make_metadata, is_digest,
}
use agent_traffic_intelligen.Sources.Records.{
  source_type_of, status_of, acquisition_of, scope_of, optional_text, time_json, text_json, parsed,
  parse_dt, parse_expiry, required_text, text, text_or, parse_verified, bindings_of, binding_fields,
  binding_from_dict, binding_items, bindings_of_items, to_dict, from_dict,
}

type_read : (t : SourceType) → source_type_of (type_value t) ≡ some t
unfolding source_type_of
type_read SourceType.ip_ranges = refl
type_read SourceType.key_directory = refl
type_read SourceType.jwk_set = refl
type_read SourceType.agent_card = refl
type_read SourceType.standard_profile = refl

status_read : (t : ValidationStatus) → status_of (status_value t) ≡ some t
unfolding status_of
status_read ValidationStatus.unvalidated = refl
status_read ValidationStatus.valid = refl
status_read ValidationStatus.invalid = refl
status_read ValidationStatus.stale = refl

acquisition_read : (t : SourceAcquisition) → acquisition_of (acquisition_value t) ≡ some t
unfolding acquisition_of
acquisition_read SourceAcquisition.unknown = refl
acquisition_read SourceAcquisition.direct_https = refl

scope_read : (t : BindingScope) → scope_of (scope_value t) ≡ some t
unfolding scope_of
scope_read BindingScope.key = refl
scope_read BindingScope.provider = refl
scope_read BindingScope.agent = refl

module _ (py : Runtime) (iso_read : (t : Moment) → py.fromisoformat (py.isoformat t) ≡ some t) where
  text_read : (o : Option String) → optional_text py (text_json py o) ≡ o
  unfolding optional_text text_json
  text_read none = refl
  text_read (some s) = refl

  moment_read : (t : Moment) → parse_dt py (str (py.isoformat t)) ≡ some (some t)
  unfolding parse_dt parsed
  moment_read t = rw (iso_read t) refl

  time_read : (o : Option Moment) → parse_dt py (time_json py o) ≡ some o
  unfolding time_json parse_dt
  time_read none = refl
  time_read (some t) = moment_read t

  module _ (no_empty : py.fromisoformat "" ≡ none) where
    iso_nonempty : (t : Moment) → (py.isoformat t == "") ≡ false
    iso_nonempty t = elim (Bool-cases (py.isoformat t == "")) [
      | inl e ↦ cc (iso_read t, no_empty, ap py.fromisoformat ((eq_iff (py.isoformat t) "").0 e))
      | inr e ↦ e
    ]

    expiry_read : (o : Option Moment) → parse_expiry py (time_json py o) ≡ some o
    unfolding parse_expiry time_json parsed
    expiry_read none = refl
    expiry_read (some t) = rw (iso_nonempty t, iso_read t) refl

    -- A written binding is read as what the constructor makes of it.
    binding_read :
        (b : KeyAuthorityBinding) → binding_from_dict py (binding_fields py b) ≡ make_binding py b
    unfolding binding_from_dict binding_fields find get required_text text parse_verified
    binding_read b = rw (iso_read b.verified_at, expiry_read b.expires_at) refl

    bindings_read :
        (bs : List KeyAuthorityBinding)
        → All (λ b. make_binding py b ≡ some b) bs
        → bindings_of_items py (binding_items py bs) ≡ some bs
    unfolding bindings_of_items binding_items
    bindings_read [] h = refl
    bindings_read (b ∷ bs) (h, hs) = rw (binding_read b, h, bindings_read bs hs) refl

    metadata_read :
        (m : SourceMetadata)
        → All (λ b. make_binding py b ≡ some b) m.key_authority_bindings
        → from_dict py (to_dict py m) ≡ make_metadata py m
    unfolding from_dict to_dict find get required_text text text_or bindings_of
    metadata_read m hs =
        rw
          (
            moment_read m.retrieved_at,
            bindings_read m.key_authority_bindings hs,
            type_read m.source_type,
            scope_read m.binding_scope,
            time_read m.source_created_at,
            time_read m.expires_at,
            status_read m.validation_status,
            acquisition_read m.acquisition,
            text_read m.provider,
            text_read m.content_type,
            text_read m.etag,
            text_read m.last_modified,
          )
          refl

module _ (py : Runtime) (fold_digest : (d : String) → is_digest d ≡ true → py.casefold d ≡ d) where
  -- What the constructor has made, it makes of itself.
  pub binding_made :
      (f b : KeyAuthorityBinding) → make_binding py f ≡ some b → make_binding py b ≡ some b
  unfolding make_binding
  binding_made f b h = ground (arith, fold_digest (py.casefold f.body_sha256))

  pub metadata_made :
      (f m : SourceMetadata) → make_metadata py f ≡ some m → make_metadata py m ≡ some m
  unfolding make_metadata
  metadata_made f m h = ground (arith, fold_digest (py.casefold f.sha256))

  bindings_made :
      (bs : List KeyAuthorityBinding)
      → All (λ b. (f : KeyAuthorityBinding) × (make_binding py f ≡ some b)) bs
      → All (λ b. make_binding py b ≡ some b) bs
  bindings_made [] h = tt
  bindings_made (b ∷ bs) ((f, made), h) = (binding_made f b made, bindings_made bs h)

-- The metadata that the constructor accepts, with bindings that their constructor accepts, is read back
-- from the object that `to_dict` writes, if `fromisoformat` reads what `isoformat` writes and refuses
-- the empty text, and if case folding keeps a digest in lower case.
pub from_dict-to_dict :
    (py : Runtime)
    → ((t : Moment) → py.fromisoformat (py.isoformat t) ≡ some t)
    → py.fromisoformat "" ≡ none
    → ((d : String) → is_digest d ≡ true → py.casefold d ≡ d)
    → (f m : SourceMetadata) → make_metadata py f ≡ some m
    → All (λ b. (g : KeyAuthorityBinding) × (make_binding py g ≡ some b)) m.key_authority_bindings
    → from_dict py (to_dict py m) ≡ some m
from_dict-to_dict py iso_read no_empty fold_digest f m made bound =
    metadata_read py iso_read no_empty m
      (bindings_made py fold_digest m.key_authority_bindings bound)
    ∙ metadata_made py fold_digest f m made
