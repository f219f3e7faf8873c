-- ===== src/Identity/Context.antt =====
-- identity/context.py: request material that lives only during verification.
use agent_traffic_intelligen.Prelude.{String, Option, List, Bool, true, false}

-- `SourceAddressProvenance`
pub data SourceAddressProvenance : Type 0 where
  direct_peer trusted_edge_client forwarded_untrusted unknown : SourceAddressProvenance

-- `provenance in _TRUSTED_ADDRESS_PROVENANCE`
abbrev pub is_trusted : SourceAddressProvenance → Bool
is_trusted direct_peer = true
is_trusted trusted_edge_client = true
is_trusted _ = false

-- `VerificationContext`
pub record VerificationContext : Type 0 where
  pub source_ip : Option String
  pub source_address_provenance : SourceAddressProvenance
  pub authority : Option String
  pub method : String
  pub target_uri : Option String
  pub signature : Option String
  pub signature_input : Option String
  pub signature_agent : Option String
  pub covered_headers : List (String × String)
