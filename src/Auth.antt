-- ===== src/Auth.antt =====
-- internal/adapters/auth/jwt.go, with the consumption of refresh tokens: login, the check of an access
-- token, and the rotation of tokens. The signature (golang-jwt), the password hash (bcrypt) and the
-- random token identifiers are parameters; so is the order in which Go goes through the users.
pub mod Rotation
use fileupload.World.{◌>>=◌, ◌>>◌}
use fileupload.Base.{
  leb, ◌||◌, ◌*◌, true, ◌&&◌, ◌+◌, is_empty, ltb, some, eqb, none, false, not, [], ◌==◌,
  if◌then◌else◌, bytes, select, Option, ◌∷◌, Bool, ℕ, List, Bytes,
}

-- AuthUser
pub record AuthUser : Type 0 where
  pub id : Bytes
  pub username : Bytes
  pub password : Bytes
  pub namespace : Bytes
  pub roles : List Bytes

-- AuthClaims
pub record AuthClaims : Type 0 where
  pub user_id : Bytes
  pub namespace : Bytes
  pub roles : List Bytes
  pub token_id : Bytes

-- the claims of a token, a missing text being empty; `roles` and `exp` may be of another type
pub record Claims : Type 0 where
  pub token_type : Bytes
  pub user_id : Bytes
  pub namespace : Bytes
  pub roles : Option (List Bytes)
  pub token_id : Bytes
  pub exp : Option ℕ

-- The service: its users, its expiry, whether it has a store that several processes share (refreshStore),
-- and the tokens that were used, with their time limits: the keys of that store, or usedRefresh.
pub record JwtService : Type 0 where
  pub users : List AuthUser
  pub expiry : ℕ
  pub shared : Bool
  pub used : List (Bytes × ℕ)

-- the errors, which differ by their texts
pub data AuthError : Type 0 where
  bad_credentials bad_token wrong_type missing_field bad_roles bad_exp used_token no_user
        store_down :
      AuthError

pub data AuthResult (A : Type 0) : Type 0 where
  granted : A → AuthResult A
  denied : AuthError → AuthResult A

-- users[username]; a later user of the same name replaces an earlier one
unfoldable pub user_named : Bytes → List AuthUser → Option AuthUser
user_named name [] = none
user_named name (u ∷ us) = elim (user_named name us) [
  | none ↦ if u.username == name then some u else none
  | some v ↦ some v
]

-- strings.HasPrefix(user.Password, "$2")
unfoldable pub is_hash : Bytes → Bool
is_hash (a ∷ b ∷ s) = eqb a b'$' && eqb b b'2'
is_hash (a ∷ []) = false
is_hash [] = false

-- the pair that generateTokenPair signs, by the claims in it
pub record TokenPair : Type 0 where
  pub access : Claims
  pub refresh : Claims
  pub expires_in : ℕ

-- generateTokenPair, at a time and with two fresh token identifiers
unfoldable pub generate_token_pair : ℕ → ℕ → Bytes → Bytes → AuthUser → TokenPair
generate_token_pair expiry now access_id refresh_id u = record {
  access = record {
    token_type = bytes "access";
    user_id = u.id;
    namespace = u.namespace;
    roles = some u.roles;
    token_id = access_id;
    exp = some (now + expiry);
  };
  refresh = record {
    token_type = bytes "refresh";
    user_id = u.id;
    namespace = [];
    roles = none;
    token_id = refresh_id;
    exp = some (now + expiry * 2);
  };
  expires_in = expiry;
}

module _ (same_password : Bytes → Bytes → Bool) where
  unfoldable pub check_password : Bytes → AuthUser → Bool
  unfolding is_hash
  check_password password u =
      if is_hash u.password then same_password u.password password else u.password == password

  unfoldable pub login_user : Option AuthUser → Bytes → AuthResult AuthUser
  unfolding check_password
  login_user none password = denied bad_credentials
  login_user (some u) password =
      if check_password password u then granted u else denied bad_credentials

  -- Login
  unfoldable pub login : JwtService → ℕ → Bytes → Bytes → Bytes → Bytes → AuthResult TokenPair
  unfolding login_user user_named generate_token_pair
  login s now access_id refresh_id username password =
      elim (login_user (user_named username s.users) password) [
        | granted u ↦ granted (generate_token_pair s.expiry now access_id refresh_id u)
        | denied e ↦ denied e
      ]

-- the claims of a token whose signature and time limit the library accepts
unfoldable pub validate_claims : Claims → AuthResult AuthClaims
validate_claims c =
    if not (c.token_type == bytes "access")
    then denied wrong_type
    else if is_empty c.user_id || (is_empty c.namespace || is_empty c.token_id)
    then denied missing_field
    else elim c.roles [
      | none ↦ denied bad_roles
      | some rs ↦ granted (record {
        user_id = c.user_id;
        namespace = c.namespace;
        roles = rs;
        token_id = c.token_id;
      })
    ]

-- refreshExpiry
unfoldable pub refresh_expiry : Option ℕ → Option ℕ
refresh_expiry none = none
refresh_expiry (some n) = if ltb 0 n then some n else none

unfoldable pub is_used : Bytes → List (Bytes × ℕ) → Bool
is_used id [] = false
is_used id ((t, e) ∷ used) = if t == id then true else is_used id used

-- the loop that forgets the tokens whose time is over
unfoldable pub forget_expired : ℕ → List (Bytes × ℕ) → List (Bytes × ℕ)
forget_expired now = select (λ e. ltb now e.1)

-- consumeRefreshToken, without a shared store; none is no error
unfoldable pub consume_here : ℕ → Bytes → ℕ → List (Bytes × ℕ) → Option AuthError × List (Bytes × ℕ)
unfolding forget_expired is_used
consume_here now id expires_at used =
    let kept = forget_expired now used in
    if is_used id kept then (some used_token, kept) else (none, (id, expires_at) ∷ kept)

-- ClaimRefreshToken: SETNX of a key that runs out with the token. A key that has run out is not there.
unfoldable pub claim_refresh_token :
    ℕ → Bytes → ℕ → List (Bytes × ℕ) → Option AuthError × List (Bytes × ℕ)
unfolding forget_expired is_used
claim_refresh_token now id expires_at keys =
    let live = forget_expired now keys in
    if is_empty id
    then (some missing_field, keys)
    else if leb expires_at now
    then (some used_token, keys)
    else if is_used id live
    then (some used_token, live)
    else (none, (id, expires_at) ∷ live)

-- consumeRefreshToken; a shared store that does not answer takes no key
unfoldable pub consume_refresh_token :
    Bool → Bool → ℕ → Bytes → ℕ → List (Bytes × ℕ) → Option AuthError × List (Bytes × ℕ)
unfolding consume_here claim_refresh_token
consume_refresh_token shared answers now id expires_at used =
    if not shared
    then consume_here now id expires_at used
    else if answers
    then claim_refresh_token now id expires_at used
    else (some store_down, used)

-- the first user with the identifier, in the order of the map
unfoldable pub user_of_id : Bytes → List AuthUser → Option AuthUser
user_of_id id [] = none
user_of_id id (u ∷ us) = if u.id == id then some u else user_of_id id us

unfoldable pub rotate :
    JwtService
    → Bool
    → ℕ
    → Bytes
    → Bytes
    → Bytes
    → ℕ
    → Option AuthUser
    → AuthResult TokenPair × JwtService
unfolding consume_refresh_token generate_token_pair
rotate s answers now access_id refresh_id token_id expires_at none = (denied no_user, s)
rotate s answers now access_id refresh_id token_id expires_at (some u) =
    let (failed, used) = consume_refresh_token s.shared answers now token_id expires_at s.used in
    let s' = record s { used = used } in
    elim failed [
      | none ↦ (granted (generate_token_pair s.expiry now access_id refresh_id u), s')
      | some e ↦ (denied e, s')
    ]

-- RefreshToken, after the library has accepted the token
unfoldable pub refresh_token :
    (List AuthUser → List AuthUser)
    → JwtService
    → Bool
    → ℕ
    → Bytes
    → Bytes
    → Claims
    → AuthResult TokenPair × JwtService
unfolding refresh_expiry user_of_id rotate
refresh_token order s answers now access_id refresh_id c =
    if not (c.token_type == bytes "refresh")
    then (denied wrong_type, s)
    else if is_empty c.user_id || is_empty c.token_id
    then (denied missing_field, s)
    else elim (refresh_expiry c.exp) [
      | none ↦ (denied bad_exp, s)
      | some at ↦
          rotate s answers now access_id refresh_id c.token_id at
            (user_of_id c.user_id (order s.users))
    ]

-- jwt.Parse, with the signature checked: a token whose time is over is refused
unfoldable pub is_valid_at : ℕ → Claims → Bool
is_valid_at now c = elim c.exp [ none ↦ true | some at ↦ ltb now at ]

-- a request with a refresh token, when it comes, and whether a shared store answers then
pub record Refresh : Type 0 where
  pub time : ℕ
  pub answers : Bool
  pub claims : Claims
  pub access_id : Bytes
  pub refresh_id : Bytes

unfoldable pub answer_refresh :
    (List AuthUser → List AuthUser) → JwtService → Refresh → AuthResult TokenPair × JwtService
unfolding is_valid_at refresh_token
answer_refresh order s r =
    if is_valid_at r.time r.claims
    then refresh_token order s r.answers r.time r.access_id r.refresh_id r.claims
    else (denied bad_token, s)

unfoldable pub answer_all :
    (List AuthUser → List AuthUser)
    → JwtService
    → List Refresh
    → List (AuthResult TokenPair) × JwtService
unfolding answer_refresh
answer_all order s [] = ([], s)
answer_all order s (r ∷ rs) =
    let (a, s') = answer_refresh order s r in
    let (more, s'') = answer_all order s' rs in (a ∷ more, s'')
