-- ===== src/Transport.antt =====
-- internal/transport/middleware.go: who may make a request, and in which namespace. Auth, JWTValidate and
-- Namespace are composed as Handler of internal/transport/router.go composes them; the layers around them
-- refuse a request or pass it on as it is. RequireRole guards the routes of administrators.
pub mod Access
use fileupload.Storage.Paths.{has_part}
use fileupload.Auth.{bad_token, AuthResult, validate_claims, Claims, AuthClaims, granted, denied}
use fileupload.Lifecycle.Reaper.{has_prefix}
use fileupload.Base.{
  leb, [], length, ◌&&◌, ◌||◌, ◌∷◌, bytes, true, not, eqb, drop, is_empty, ◌==◌, Option, ℕ,
  if◌then◌else◌, Bytes, false, Bool, none, some,
}

-- a request: Header.Get and URL.Query().Get give the empty text where there is no value
pub record HttpRequest : Type 0 where
  pub path : Bytes
  pub header : Bytes → Bytes
  pub query : Bytes → Bytes

-- the values in the request's context
pub record Context : Type 0 where
  pub claims : Option AuthClaims
  pub static_authorized : Bool
  pub namespace : Option Bytes

-- A response with a status and a code, or what the handler of a route gets.
pub data Reply : Type 0 where
  refused : ℕ → Bytes → Reply
  served : Context → Reply

abbrev pub Handler : Type 0
Handler = HttpRequest → Context → Reply

-- AuthConfig
pub record AuthConfig : Type 0 where
  pub enabled : Bool
  pub enforce : Bool
  pub token : Bytes
  pub header : Bytes

unfoldable pub is_public_path : Bytes → Bool
unfolding has_prefix
is_public_path p =
    p == bytes "/health"
    || (p == bytes "/"
        || (p == bytes "/metrics"
            || (p == bytes "/v1/auth/login"
                || (p == bytes "/v1/auth/refresh"
                    || (has_prefix p (bytes "/s/")
                        || (has_prefix p (bytes "/assets/") || p == bytes "/favicon.ico"))))))

-- Auth
unfoldable pub auth_middleware : AuthConfig → Handler → Handler
unfolding is_public_path
auth_middleware cfg next r c =
    if not cfg.enabled || is_empty cfg.token
    then next r c
    else if is_public_path r.path
    then next r c
    else let token = r.header cfg.header in
      if is_empty token
      then refused 401 (bytes "auth_required")
      else if not (token == cfg.token)
      then refused 403 (bytes "auth_invalid")
      else next r (record c { static_authorized = true })

-- strings.TrimPrefix
unfoldable pub trim_prefix : Bytes → Bytes → Bytes
unfolding has_prefix
trim_prefix p s = if has_prefix s p then drop (length p) s else s

-- the white space of one byte
unfoldable pub is_space : ℕ → Bool
is_space b = eqb b 32 || (leb 9 b && leb b 13)

-- U+0085 and U+00A0
unfoldable pub is_space_pair : ℕ → ℕ → Bool
is_space_pair a b = eqb a 194 && (eqb b 133 || eqb b 160)

-- U+1680, U+2000 to U+200A, U+2028, U+2029, U+202F, U+205F and U+3000
unfoldable pub is_space_triple : ℕ → ℕ → ℕ → Bool
is_space_triple a b c =
    (eqb a 225 && (eqb b 154 && eqb c 128))
    || ((eqb a 226
          && ((eqb b 128 && ((leb 128 c && leb c 138) || (eqb c 168 || (eqb c 169 || eqb c 175))))
              || (eqb b 129 && eqb c 159)))
        || (eqb a 227 && (eqb b 128 && eqb c 128)))

-- strings.TrimSpace(s) == ""
unfoldable pub is_blank : Bytes → Bool
unfolding is_space is_space_pair is_space_triple
is_blank [] = true
is_blank (a ∷ []) = is_space a
is_blank (a ∷ b ∷ []) = (is_space a && is_space b) || is_space_pair a b
is_blank (a ∷ b ∷ c ∷ s) =
    (is_space a && is_blank (b ∷ c ∷ s))
    || ((is_space_pair a b && is_blank (c ∷ s)) || (is_space_triple a b c && is_blank s))

-- the claims' namespace goes into the context, unless it is empty
unfoldable pub with_claims : AuthClaims → Context → Context
with_claims claims c = record c {
  claims = some claims;
  namespace = if is_empty claims.namespace then c.namespace else some claims.namespace;
}

unfoldable pub has_role : AuthClaims → Bytes → Bool
unfolding has_part
has_role claims role = has_part role claims.roles

-- requestedNamespace
unfoldable pub requested_namespace : HttpRequest → Bytes
requested_namespace r =
    let user = r.header (bytes "X-User-ID") in
    let ns = r.header (bytes "X-Namespace") in
    if not (is_empty user)
    then user
    else if not (is_empty ns)
    then ns
    else r.query (bytes "namespace")

-- the namespace of a request with the claims
unfoldable pub namespace_for : Option AuthClaims → Bytes → Bytes
unfolding has_role
namespace_for none requested = requested
namespace_for (some claims) requested =
    if has_role claims (bytes "admin") && not (is_empty requested)
    then requested
    else claims.namespace

-- Namespace
unfoldable pub namespace_middleware : Handler → Handler
unfolding namespace_for requested_namespace
namespace_middleware next r c =
    let ns = namespace_for c.claims (requested_namespace r) in
    next r (record c { namespace = some (if is_empty ns then bytes "default" else ns) })

-- RequireRole
unfoldable pub require_role : Bytes → Handler → Handler
unfolding has_role
require_role role next r c = if c.static_authorized then next r c else elim c.claims [
  | none ↦ refused 401 (bytes "auth_required")
  | some claims ↦ if has_role claims role then next r c else refused 403 (bytes "forbidden")
]

-- without a token the request goes on, unless tokens are enforced
unfoldable pub no_token : AuthConfig → Bytes → Handler → Handler
unfolding is_public_path
no_token cfg code next r c =
    if cfg.enforce && not (is_public_path r.path) then refused 401 code else next r c

unfoldable pub validated : AuthResult AuthClaims → Handler → Handler
unfolding with_claims
validated (granted claims) next r c = next r (with_claims claims c)
validated (denied e) next r c = refused 401 (bytes "token_invalid")

-- ValidateToken; jwt.Parse is a library's: it gives the claims of a token whose signature and time limit it
-- accepts.
unfoldable pub validate_token : (Bytes → Option Claims) → Bytes → AuthResult AuthClaims
unfolding validate_claims
validate_token parse token = elim (parse token) [
  | none ↦ denied bad_token
  | some c ↦ validate_claims c
]

-- JWTValidate. Without a secret in the configuration there is no service for tokens, and every request goes
-- on, whether tokens are enforced or not.
unfoldable pub jwt_validate : Option (Bytes → Option Claims) → AuthConfig → Handler → Handler
unfolding no_token trim_prefix is_blank validate_token validated
jwt_validate none cfg next r c = next r c
jwt_validate (some parse) cfg next r c =
    let header = r.header (bytes "Authorization") in
    let token = trim_prefix (bytes "Bearer ") header in
    if is_empty header
    then no_token cfg (bytes "token_required") next r c
    else if token == header || is_blank token
    then no_token cfg (bytes "token_invalid") next r c
    else validated (validate_token parse token) next r c

-- Handler: what a request goes through on its way to its route
unfoldable pub secured : Option (Bytes → Option Claims) → AuthConfig → Handler → Handler
unfolding auth_middleware jwt_validate namespace_middleware
secured service cfg next =
    auth_middleware cfg (jwt_validate service cfg (namespace_middleware next))

-- what a request starts with
abbrev pub empty_context : Context
empty_context = record { claims = none; static_authorized = false; namespace = none }
