-- ===== src/Examples/Access.antt =====
-- The theorems on the middleware and on the client, applied to a request of an administrator and to seven
-- bytes.
use fileupload.Upload.Chunks.Plan.{shape}
use fileupload.Upload.Chunks.{by_index, validate_uploaded_chunks}
use fileupload.Sdk.{sent_chunks}
use fileupload.Domain.{ok, ChunkInfo}
use fileupload.Sdk.Pieces.{sent_accepted, piece_of, joined}
use fileupload.Transport.Access.{IsAdmin, secured_namespace, secured-IsAdmin, token_of, at_route}
use fileupload.Auth.{granted, Claims, AuthClaims}
use fileupload.Base.{
  arith, pos, map, sort_by, List, none, ◌⊎◌, [], refl, true, ◌∷◌, false, if◌then◌else◌, ◌==◌, some,
  ◌≡◌, Option, is_empty, bytes, Bytes,
}
use fileupload.Transport.{
  requested_namespace, served, has_role, empty_context, require_role, validate_token,
  is_public_path, AuthConfig, Context, secured, HttpRequest,
}

abbrev settings_of_auth : AuthConfig
settings_of_auth = record {
  enabled = false;
  enforce = true;
  token = [];
  header = bytes "X-Auth-Token";
}

abbrev ann_claims : Claims
ann_claims = record {
  token_type = bytes "access";
  user_id = bytes "u1";
  namespace = bytes "team";
  roles = some (bytes "admin" ∷ []);
  token_id = bytes "a1";
  exp = some 2000;
}

abbrev parsed : Bytes → Option Claims
parsed token = if token == bytes "t" then some ann_claims else none

abbrev sent_by_ann : HttpRequest
sent_by_ann = record {
  path = bytes "/v1/ls";
  header = λ h.
      if h == bytes "Authorization"
      then bytes "Bearer t"
      else if h == bytes "X-Namespace"
      then bytes "guests"
      else [];
  query = λ q. [];
}

abbrev of_administrator : Context
of_administrator = record {
  claims = some (record {
    user_id = bytes "u1";
    namespace = bytes "team";
    roles = bytes "admin" ∷ [];
    token_id = bytes "a1";
  });
  static_authorized = false;
  namespace = some (bytes "guests");
}

private_path : is_public_path sent_by_ann.path ≡ false
unfolding is_public_path ◌==◌
private_path = refl

reached :
    secured (some parsed) settings_of_auth at_route sent_by_ann empty_context
    ≡ served of_administrator
unfolding secured ◌==◌
reached = refl

secured_namespace_example :
    (claims : AuthClaims) × (validate_token parsed (token_of sent_by_ann) ≡ granted claims)
    × ((of_administrator.namespace ≡ some claims.namespace)
        ⊎ ((has_role claims (bytes "admin") ≡ true)
            × (of_administrator.namespace ≡ some (requested_namespace sent_by_ann))))
secured_namespace_example =
    secured_namespace parsed settings_of_auth sent_by_ann of_administrator refl private_path reached

passed :
    secured
      (some parsed)
      settings_of_auth
      (require_role (bytes "admin") at_route)
      sent_by_ann
      empty_context
    ≡ served of_administrator
unfolding secured require_role ◌==◌
passed = refl

secured-IsAdmin_example :
    ((is_empty settings_of_auth.token ≡ false)
      × (sent_by_ann.header settings_of_auth.header ≡ settings_of_auth.token))
    ⊎ IsAdmin (some parsed) sent_by_ann
secured-IsAdmin_example =
    secured-IsAdmin (some parsed) settings_of_auth sent_by_ann of_administrator passed

-- seven bytes in pieces of three, recorded last piece first
abbrev recorded_chunks : List ChunkInfo
recorded_chunks =
    record { index = 2; sha256 = []; size = 1 }
    ∷ record { index = 0; sha256 = []; size = 3 }
    ∷ record { index = 1; sha256 = []; size = 3 }
    ∷ []

all_recorded :
    map shape (sort_by by_index recorded_chunks) ≡ map piece_of (sent_chunks 3 (bytes "abcdefg"))
unfolding sort_by sent_chunks
all_recorded = refl

sent_accepted_example :
    (joined (sent_chunks 3 (bytes "abcdefg")) ≡ bytes "abcdefg")
    × (validate_uploaded_chunks recorded_chunks (pos 7) (pos 3) true ≡ ok tt)
sent_accepted_example =
    sent_accepted 3 (bytes "abcdefg") recorded_chunks (omega arith) (omega arith) (omega arith)
      all_recorded
