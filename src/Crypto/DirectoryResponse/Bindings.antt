-- ===== src/Crypto/DirectoryResponse/Bindings.antt =====
-- What a binding of identity/crypto/directory_response.py says.
use agent_traffic_intelligen.Prelude.{
  String, Option, none, some, List, [], ◌∷◌, Bool, true, false, not, ◌==◌, ◌≡◌, refl, sym, ◌∙◌, All,
  All-map, Exists, inl, inr, Bool-cases, arith, or_else, if◌then◌else◌,
}
use agent_traffic_intelligen.Prelude.Options.{bind_some, some_subst}
use agent_traffic_intelligen.Runtime.{Moment, Runtime}
use agent_traffic_intelligen.Sources.Documents.{KeyAuthorityBinding, make_binding}
use agent_traffic_intelligen.Crypto.Keys.{DirectoryKey}
use agent_traffic_intelligen.Crypto.Keys.Documents.{jwk_thumbprint}
use agent_traffic_intelligen.Crypto.Checks.{Rfc9421Result, parameter}
use agent_traffic_intelligen.Identity.Evidence.{is_pass}
use agent_traffic_intelligen.Crypto.DirectoryResponse.{
  DirectoryResponse, ResponseChecks, response_algorithms, is_unsigned, integer_of,
  covers_request_authority, signature_expiry, binding_report, binding_of, bind_key, bind_keys,
  verify_directory_response,
}

module _ (py : Runtime) (checks : ResponseChecks) where
  -- A key whose signature over the request's authority verifies, under an algorithm of its type.
  abbrev pub IsSigner : DirectoryResponse → DirectoryKey → Type 0
  IsSigner response key =
      Exists
        (λ algorithm.
          (is_pass (checks.verify_response response algorithm key.key_id).outcome ≡ true)
          × (covers_request_authority py checks
                (checks.verify_response response algorithm key.key_id)
              ≡ true))
        (response_algorithms key)

  report-IsSigner :
      (response : DirectoryResponse) (key : DirectoryKey) (algorithms : List String)
      (r : Rfc9421Result)
      → binding_report py checks response key algorithms ≡ some r
      → Exists
          (λ algorithm.
            (is_pass (checks.verify_response response algorithm key.key_id).outcome ≡ true)
            × (covers_request_authority py checks
                  (checks.verify_response response algorithm key.key_id)
                ≡ true))
          algorithms
  unfolding binding_report
  report-IsSigner response key [] r h = cc
  report-IsSigner response key (a ∷ rest) r h =
      elim (Bool-cases (is_pass (checks.verify_response response a key.key_id).outcome)) [
        | inr e ↦ inr (report-IsSigner response key rest r (rw e at h))
        | inl e ↦
            elim (Bool-cases
              (covers_request_authority py checks (checks.verify_response response a key.key_id))) [
                | inr f ↦ inr (report-IsSigner response key rest r (rw (e, f) at h))
                | inl f ↦ inl (e, f)
              ]
      ]

  -- A binding of a key of the list, to the body and the authority of the response.
  abbrev pub IsBindingOf : DirectoryResponse → List DirectoryKey → KeyAuthorityBinding → Type 0
  IsBindingOf response keys b =
      Exists
        (λ key.
          IsSigner response key
          × (jwk_thumbprint checks.member_digest key.jwk ≡ some b.key_thumbprint))
        keys
      × (b.body_sha256 ≡ py.casefold (py.sha256 response.body))
      × (b.authority ≡ py.casefold (checks.netloc response.request_uri))

  made_binding :
      (f b : KeyAuthorityBinding)
      → make_binding py f ≡ some b
      → (b.key_thumbprint ≡ f.key_thumbprint)
        × (b.body_sha256 ≡ py.casefold f.body_sha256)
        × (b.authority ≡ f.authority)
  unfolding make_binding
  made_binding f b h = (ground arith, ground arith, ground arith)

  binding-parts :
      (response : DirectoryResponse) (authority : String) (now : Moment) (key : DirectoryKey)
      (r : Rfc9421Result) (b : KeyAuthorityBinding)
      → binding_of py checks response authority now key r ≡ some b
      → (jwk_thumbprint checks.member_digest key.jwk ≡ some b.key_thumbprint)
        × (b.body_sha256 ≡ py.casefold (py.sha256 response.body))
        × (b.authority ≡ authority)
  unfolding binding_of
  binding-parts response authority now key r b h =
      let (thumbprint, e, h1) = bind_some (jwk_thumbprint checks.member_digest key.jwk) _ b h in
      let (expiry, _, h2) =
        bind_some (signature_expiry py checks (integer_of (parameter "expires" r.parameters))) _ b
          h1 in
      let (same, digest, name) = made_binding _ b h2 in (cc (e, same), digest, name)

  weaken :
      (response : DirectoryResponse) (key : DirectoryKey) (keys : List DirectoryKey)
      (b : KeyAuthorityBinding)
      → IsBindingOf response keys b
      → IsBindingOf response (key ∷ keys) b
  weaken response key keys b (bound, digest, authority) = (inr bound, digest, authority)

  bind_key-IsBindingOf :
      (response : DirectoryResponse) (authority : String) (now : Moment) (key : DirectoryKey)
      (keys : List DirectoryKey) (o : Option Rfc9421Result) (rest bs : List KeyAuthorityBinding)
      → py.casefold (checks.netloc response.request_uri) ≡ authority
      → binding_report py checks response key (response_algorithms key) ≡ o
      → All (IsBindingOf response keys) rest
      → bind_key py checks response authority now key o rest ≡ some bs
      → All (IsBindingOf response (key ∷ keys)) bs
  unfolding bind_key
  bind_key-IsBindingOf response authority now key keys none rest bs same e bound h =
      some_subst (All (IsBindingOf response (key ∷ keys))) h
        (All-map (weaken response key keys) rest bound)
  bind_key-IsBindingOf response authority now key keys (some r) rest bs same e bound h =
      let (b, f, h1) = bind_some (binding_of py checks response authority now key r) _ bs h in
      let (thumbprint, digest, name) = binding-parts response authority now key r b f in
      some_subst (All (IsBindingOf response (key ∷ keys))) h1 (
        (
          (inl (report-IsSigner response key (response_algorithms key) r e, thumbprint)),
          digest,
          name ∙ sym same,
        ),
        All-map (weaken response key keys) rest bound,
      )

  bind_keys-IsBindingOf :
      (response : DirectoryResponse) (authority : String) (now : Moment) (keys : List DirectoryKey)
      (bs : List KeyAuthorityBinding)
      → py.casefold (checks.netloc response.request_uri) ≡ authority
      → bind_keys py checks response authority now keys ≡ some bs
      → All (IsBindingOf response keys) bs
  unfolding bind_keys
  bind_keys-IsBindingOf response authority now [] bs same h =
      some_subst (All (IsBindingOf response [])) h tt
  bind_keys-IsBindingOf response authority now (key ∷ keys) bs same h =
      let (rest, e, h1) = bind_some (bind_keys py checks response authority now keys) _ bs h in
      bind_key-IsBindingOf response authority now key keys _ rest bs same refl
        (bind_keys-IsBindingOf response authority now keys rest same e) h1

  if_nothing :
      {A : Type 0} (b : Bool) (o : Option (List A)) (P : A → Type 0) (xs : List A)
      → ((o ≡ some xs) → All P xs)
      → (if b then some [] else o) ≡ some xs
      → All P xs
  if_nothing true o P xs f h = some_subst (All P) h tt
  if_nothing false o P xs f h = f h

  if_none :
      {A : Type 0} (b : Bool) (o : Option A) (x : A) → (if b then none else o) ≡ some x → o ≡ some x
  if_none true o x h = cc
  if_none false o x h = h

  -- Every binding is of a key of the directory whose signature on the response verifies, under an
  -- algorithm of its type, and covers the authority of the request; it names that key's thumbprint, the
  -- digest of the response's body and the authority that was asked.
  pub bindings-IsBindingOf :
      (keys : List DirectoryKey) (response : DirectoryResponse) (now : Moment)
      (bs : List KeyAuthorityBinding)
      → verify_directory_response py checks keys response now ≡ some bs
      → All (IsBindingOf response keys) bs
  unfolding verify_directory_response
  bindings-IsBindingOf keys response now bs h =
      if_nothing (is_unsigned response) _ (IsBindingOf response keys) bs
        (λ h1.
          if_nothing
            (not (checks.is_content_digest (or_else response.content_digest "") response.body)) _
            (IsBindingOf response keys) bs
            (λ h2.
              bind_keys-IsBindingOf response (py.casefold (checks.netloc response.request_uri)) now
                keys bs refl
                (if_none (py.casefold (checks.netloc response.request_uri) == "") _ bs h2))
            h1)
        (if_none (not now.is_aware) _ bs h)
