-- ===== src/Transport/Access.antt =====
-- Who reaches a route, and in which namespace.
use fileupload.Auth.{validate_claims, denied, AuthResult, granted, AuthClaims, Claims}
use fileupload.Base.{
  none, ◌≢◌, some, Option-cases, ◌||◌, ◌==◌, refl, inr, inl, Bool-cases, eq_iff, arith, true, false,
  not, is_empty, ◌⊎◌, ◌&&◌, bytes, ◌≡◌, Option, Bytes,
}
use fileupload.Transport.{
  namespace_for, namespace_middleware, requested_namespace, has_role, require_role, empty_context,
  secured, is_blank, with_claims, validate_token, validated, jwt_validate, is_public_path, no_token,
  Context, trim_prefix, HttpRequest, AuthConfig, served, auth_middleware, Handler,
}

abbrev pub at_route : Handler
at_route r c = served c

auth-served :
    (cfg : AuthConfig) (next : Handler) (r : HttpRequest) (c d : Context)
    → auth_middleware cfg next r c ≡ served d
    → (next r c ≡ served d)
      ⊎ ((is_empty cfg.token ≡ false)
          × (r.header cfg.header ≡ cfg.token)
          × (next r (record c { static_authorized = true }) ≡ served d))
unfolding auth_middleware
auth-served cfg next r c d e = ground (arith, eq_iff (r.header cfg.header) cfg.token)

no_token-served :
    (cfg : AuthConfig) (code : Bytes) (next : Handler) (r : HttpRequest) (c d : Context)
    → no_token cfg code next r c ≡ served d
    → (cfg.enforce && not (is_public_path r.path) ≡ false) × (next r c ≡ served d)
unfolding no_token
no_token-served cfg code next r c d e = ground arith

-- the token of a request
abbrev pub token_of : HttpRequest → Bytes
token_of r = trim_prefix (bytes "Bearer ") (r.header (bytes "Authorization"))

claims-named :
    (c : Claims) (claims : AuthClaims)
    → validate_claims c ≡ granted claims
    → is_empty claims.namespace ≡ false
unfolding validate_claims
claims-named c claims e = ground arith

-- the namespace that a request with claims gets
claims_namespace :
    (claims : AuthClaims) (r : HttpRequest) (c d : Context)
    → is_empty claims.namespace ≡ false
    → namespace_middleware at_route r (with_claims claims c) ≡ served d
    → (d.namespace ≡ some claims.namespace)
      ⊎ ((has_role claims (bytes "admin") ≡ true) × (d.namespace ≡ some (requested_namespace r)))
unfolding namespace_middleware with_claims namespace_for
claims_namespace claims r c d named e = ground arith

-- a request with claims passes where they have the role
claims_role :
    (claims : AuthClaims) (role : Bytes) (r : HttpRequest) (d : Context)
    → namespace_middleware (require_role role at_route) r (with_claims claims empty_context)
      ≡ served d
    → has_role claims role ≡ true
unfolding namespace_middleware with_claims require_role
claims_role claims role r d e = ground arith

-- a request without claims does not pass
no_claims :
    (role : Bytes) (r : HttpRequest) (d : Context)
    → namespace_middleware (require_role role at_route) r empty_context ≢ served d
unfolding namespace_middleware require_role
no_claims role r d e = ground arith

module _ (parse : Bytes → Option Claims) where
  validated-served :
      (token : AuthResult AuthClaims) (next : Handler) (r : HttpRequest) (c d : Context)
      → validated token next r c ≡ served d
      → (claims : AuthClaims) × (token ≡ granted claims)
        × (next r (with_claims claims c) ≡ served d)
  unfolding validated
  validated-served (granted claims) next r c d e = (claims, refl, e)
  validated-served (denied x) next r c d e = ground arith

  jwt-served :
      (cfg : AuthConfig) (next : Handler) (r : HttpRequest) (c d : Context)
      → jwt_validate (some parse) cfg next r c ≡ served d
      → ((cfg.enforce && not (is_public_path r.path) ≡ false) × (next r c ≡ served d))
        ⊎ ((claims : AuthClaims) × (validate_token parse (token_of r) ≡ granted claims)
            × (next r (with_claims claims c) ≡ served d))
  unfolding jwt_validate
  jwt-served cfg next r c d e =
      let header = r.header (bytes "Authorization") in
      elim (Bool-cases (is_empty header)) [
        | inl none_sent ↦
            inl (
              no_token-served cfg (bytes "token_required") next r c d
                (ground (arith, none_sent, e)))
        | inr sent ↦ elim (Bool-cases (token_of r == header || is_blank (token_of r))) [
          | inl malformed ↦ inl (
              no_token-served cfg (bytes "token_invalid") next r c d
                (ground (arith, sent, malformed, e)))
          | inr formed ↦ inr (
              validated-served (validate_token parse (token_of r)) next r c d
                (ground (arith, sent, formed, e)))
        ]
      ]

  token-named :
      (token : Bytes) (claims : AuthClaims)
      → validate_token parse token ≡ granted claims
      → is_empty claims.namespace ≡ false
  unfolding validate_token
  token-named token claims e = elim (Option-cases (parse token)) [
    | inl invalid ↦ ground (arith, invalid, e)
    | inr (c, valid) ↦ claims-named c claims (ground (arith, valid, e))
  ]

  -- the same, once the service token has been looked at
  enforced_namespace :
      (cfg : AuthConfig) (r : HttpRequest) (c d : Context)
      → cfg.enforce ≡ true
      → is_public_path r.path ≡ false
      → jwt_validate (some parse) cfg (namespace_middleware at_route) r c ≡ served d
      → (claims : AuthClaims) × (validate_token parse (token_of r) ≡ granted claims)
        × ((d.namespace ≡ some claims.namespace)
            ⊎ ((has_role claims (bytes "admin") ≡ true)
                × (d.namespace ≡ some (requested_namespace r))))
  enforced_namespace cfg r c d enforced closed e =
      elim (jwt-served cfg (namespace_middleware at_route) r c d e) [
        | inl (open_path, _) ↦ absurd (ground (arith, open_path, enforced, closed))
        | inr (claims, valid, served_it) ↦ (
          claims,
          valid,
          claims_namespace claims r c d (token-named (token_of r) claims valid) served_it,
        )
      ]

  -- With tokens enforced and a service for tokens, which a secret in the configuration provides, a request for a path that is not public reaches its route only with a valid
  -- access token, and then in the namespace of the token, or, where the token has the role admin, in the
  -- namespace that the request asks for.
  pub secured_namespace :
      (cfg : AuthConfig) (r : HttpRequest) (d : Context)
      → cfg.enforce ≡ true
      → is_public_path r.path ≡ false
      → secured (some parse) cfg at_route r empty_context ≡ served d
      → (claims : AuthClaims) × (validate_token parse (token_of r) ≡ granted claims)
        × ((d.namespace ≡ some claims.namespace)
            ⊎ ((has_role claims (bytes "admin") ≡ true)
                × (d.namespace ≡ some (requested_namespace r))))
  unfolding secured
  secured_namespace cfg r d enforced closed e =
      elim (auth-served cfg (jwt_validate (some parse) cfg (namespace_middleware at_route)) r
        empty_context d e) [
          | inl rest ↦ enforced_namespace cfg r empty_context d enforced closed rest
          | inr (_, _, rest) ↦
              enforced_namespace cfg r (record empty_context { static_authorized = true }) d
                enforced closed rest
        ]

  -- the same, once the service token has been looked at
  admin_claims :
      (cfg : AuthConfig) (r : HttpRequest) (d : Context)
      → jwt_validate
          (some parse)
          cfg
          (namespace_middleware (require_role (bytes "admin") at_route))
          r
          empty_context
        ≡ served d
      → (claims : AuthClaims) × (validate_token parse (token_of r) ≡ granted claims)
        × (has_role claims (bytes "admin") ≡ true)
  admin_claims cfg r d e =
      let guarded = namespace_middleware (require_role (bytes "admin") at_route) in
      elim (jwt-served cfg guarded r empty_context d e) [
        | inl (_, through) ↦ absurd (no_claims (bytes "admin") r d through)
        | inr (claims, valid, through) ↦
            (claims, valid, claims_role claims (bytes "admin") r d through)
      ]

-- there is a service, and by it the request's token is one of an administrator
abbrev pub IsAdmin : Option (Bytes → Option Claims) → HttpRequest → Type 0
IsAdmin service r =
    (parse : Bytes → Option Claims) × (service ≡ some parse)
    × ((claims : AuthClaims) × (validate_token parse (token_of r) ≡ granted claims)
        × (has_role claims (bytes "admin") ≡ true))

service-IsAdmin :
    (service : Option (Bytes → Option Claims)) (cfg : AuthConfig) (r : HttpRequest) (d : Context)
    → jwt_validate service cfg
        (namespace_middleware (require_role (bytes "admin") at_route))
        r
        empty_context
      ≡ served d
    → IsAdmin service r
service-IsAdmin none cfg r d e = absurd (no_claims (bytes "admin") r d (unfold jwt_validate in e))
service-IsAdmin (some parse) cfg r d e = (parse, refl, admin_claims parse cfg r d e)

-- Whether there is a service for tokens or not, a request reaches a route for administrators only with the
-- configured service token, which is not empty, or with an access token that has the role admin and that
-- the service finds valid: without a service, the service token is the only way.
pub secured-IsAdmin :
    (service : Option (Bytes → Option Claims)) (cfg : AuthConfig) (r : HttpRequest) (d : Context)
    → secured service cfg (require_role (bytes "admin") at_route) r empty_context ≡ served d
    → ((is_empty cfg.token ≡ false) × (r.header cfg.header ≡ cfg.token)) ⊎ IsAdmin service r
unfolding secured
secured-IsAdmin service cfg r d e =
    let guarded = namespace_middleware (require_role (bytes "admin") at_route) in
    elim (auth-served cfg (jwt_validate service cfg guarded) r empty_context d e) [
      | inr (set, same, _) ↦ inl (set, same)
      | inl rest ↦ inr (service-IsAdmin service cfg r d rest)
    ]
