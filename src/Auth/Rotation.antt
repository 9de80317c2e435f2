-- ===== src/Auth/Rotation.antt =====
-- A refresh token is good for one refresh.
use fileupload.Auth.{
  claim_refresh_token, consume_here, user_of_id, is_valid_at, denied, refresh_expiry, Refresh,
  refresh_token, granted, TokenPair, answer_refresh, JwtService, answer_all, consume_refresh_token,
  forget_expired, is_used, AuthUser, rotate, AuthResult,
}
use std.Path.{subst}
use fileupload.Base.{
  ◌≢◌, sym, ◌∙◌, All-weaken, inr, Bool-cases, inl, ◌≤◌, ltb, Option-cases, eqb, ◌&&◌, ◌==◌, refl,
  if◌then◌else◌, [], eqb_iff, ◌∷◌, none, eq_refl, some, arith, All, Option, true, ◌≡◌, ◌<◌, false,
  Bool, ℕ, List, Bytes,
}

-- the token is on record as used, until the time
has_entry : Bytes → ℕ → List (Bytes × ℕ) → Bool
has_entry id at [] = false
has_entry id at ((t, e) ∷ used) = if t == id && eqb e at then true else has_entry id at used

entry-used :
    (id : Bytes) (at : ℕ) (used : List (Bytes × ℕ))
    → has_entry id at used ≡ true
    → is_used id used ≡ true
unfolding has_entry is_used
entry-used id at [] h = ground arith
entry-used id at ((t, e) ∷ used) h = ground (arith, entry-used id at used)

-- an entry is kept until its time
entry-kept :
    (id : Bytes) (at now : ℕ) (used : List (Bytes × ℕ))
    → now < at
    → has_entry id at used ≡ true
    → has_entry id at (forget_expired now used) ≡ true
unfolding has_entry forget_expired
entry-kept id at now [] lt h = ground arith
entry-kept id at now ((t, e) ∷ used) lt h =
    ground (arith, entry-kept id at now used lt, eqb_iff e at)

consume-kept :
    (shared answers : Bool) (id token : Bytes) (at now expires_at : ℕ) (used : List (Bytes × ℕ))
    → now < at
    → has_entry id at used ≡ true
    → has_entry id at (consume_refresh_token shared answers now token expires_at used).1 ≡ true
unfolding consume_refresh_token consume_here claim_refresh_token has_entry
consume-kept shared answers id token at now expires_at used lt h =
    ground (arith, entry-kept id at now used lt h)

consume-entry :
    (shared answers : Bool) (id : Bytes) (at now : ℕ) (used : List (Bytes × ℕ))
    → (consume_refresh_token shared answers now id at used).0 ≡ none
    → has_entry id at (consume_refresh_token shared answers now id at used).1 ≡ true
unfolding consume_refresh_token consume_here claim_refresh_token has_entry
consume-entry shared answers id at now used h = ground (arith, eq_refl id, eqb_iff at at)

consume-refused :
    (shared answers : Bool) (id : Bytes) (at now : ℕ) (used : List (Bytes × ℕ))
    → now < at
    → has_entry id at used ≡ true
    → (consume_refresh_token shared answers now id at used).0 ≢ none
unfolding consume_refresh_token consume_here claim_refresh_token
consume-refused shared answers id at now used lt h e =
    ground (arith, entry-used id at (forget_expired now used) (entry-kept id at now used lt h))

abbrev pub is_granted : AuthResult TokenPair → Bool
is_granted (granted p) = true
is_granted (denied e) = false

rotate-kept :
    (s : JwtService) (answers : Bool) (now : ℕ) (a r token : Bytes) (expires_at : ℕ)
    (u : Option AuthUser) (id : Bytes) (at : ℕ)
    → now < at
    → has_entry id at s.used ≡ true
    → has_entry id at (rotate s answers now a r token expires_at u).1.used ≡ true
unfolding rotate
rotate-kept s answers now a r token expires_at none id at lt h = h
rotate-kept s answers now a r token expires_at (some u) id at lt h =
    ground (arith, consume-kept s.shared answers id token at now expires_at s.used lt h)

rotate-entry :
    (s : JwtService) (answers : Bool) (now : ℕ) (a r id : Bytes) (at : ℕ) (u : Option AuthUser)
    → is_granted (rotate s answers now a r id at u).0 ≡ true
    → has_entry id at (rotate s answers now a r id at u).1.used ≡ true
unfolding rotate
rotate-entry s answers now a r id at none g = ground arith
rotate-entry s answers now a r id at (some u) g =
    ground (arith, consume-entry s.shared answers id at now s.used)

rotate-refused :
    (s : JwtService) (answers : Bool) (now : ℕ) (a r id : Bytes) (at : ℕ) (u : Option AuthUser)
    → now < at
    → has_entry id at s.used ≡ true
    → is_granted (rotate s answers now a r id at u).0 ≡ false
unfolding rotate
rotate-refused s answers now a r id at none lt h = refl
rotate-refused s answers now a r id at (some u) lt h =
    ground (arith, consume-refused s.shared answers id at now s.used lt h)

module _ (order : List AuthUser → List AuthUser) where
  answer-kept :
      (s : JwtService) (q : Refresh) (id : Bytes) (at : ℕ)
      → q.time < at
      → has_entry id at s.used ≡ true
      → has_entry id at (answer_refresh order s q).1.used ≡ true
  unfolding answer_refresh refresh_token refresh_expiry
  answer-kept s q id at lt h = elim (Option-cases q.claims.exp) [
    | inl e ↦ ground (arith, e, h)
    | inr (until, e) ↦ ground (
      arith,
      e,
      h,
      rotate-kept s q.answers q.time q.access_id q.refresh_id q.claims.token_id until
          (user_of_id q.claims.user_id (order s.users)) id at lt h,
    )
  ]

  answer-entry :
      (s : JwtService) (q : Refresh)
      → is_granted (answer_refresh order s q).0 ≡ true
      → (at : ℕ) × (q.claims.exp ≡ some at)
        × (has_entry q.claims.token_id at (answer_refresh order s q).1.used ≡ true)
  unfolding answer_refresh refresh_token refresh_expiry
  answer-entry s q g = elim (Option-cases q.claims.exp) [
    | inl e ↦ absurd (ground (arith, e, g))
    | inr (until, e) ↦ (
      until,
      e,
      ground (
        arith,
        e,
        g,
        rotate-entry s q.answers q.time q.access_id q.refresh_id q.claims.token_id until
            (user_of_id q.claims.user_id (order s.users)),
      ),
    )
  ]

  answer-refused :
      (s : JwtService) (q : Refresh) (at : ℕ)
      → q.claims.exp ≡ some at
      → has_entry q.claims.token_id at s.used ≡ true
      → is_granted (answer_refresh order s q).0 ≡ false
  unfolding answer_refresh refresh_token refresh_expiry is_valid_at
  answer-refused s q at e h = ground (
    arith,
    e,
    h,
    rotate-refused s q.answers q.time q.access_id q.refresh_id q.claims.token_id at
        (user_of_id q.claims.user_id (order s.users)),
  )

  answer_all-kept :
      (s : JwtService) (qs : List Refresh) (id : Bytes) (at : ℕ)
      → All (λ q. q.time < at) qs
      → has_entry id at s.used ≡ true
      → has_entry id at (answer_all order s qs).1.used ≡ true
  unfolding answer_all
  answer_all-kept s [] id at early h = h
  answer_all-kept s (q ∷ qs) id at early h =
      answer_all-kept (answer_refresh order s q).1 qs id at early.1
        (answer-kept s q id at early.0 h)

-- the library refuses a token whose time is over
too_late :
    (order : List AuthUser → List AuthUser) (s : JwtService) (q : Refresh) (at : ℕ)
    → q.claims.exp ≡ some at
    → ltb q.time at ≡ false
    → is_granted (answer_refresh order s q).0 ≡ false
unfolding answer_refresh is_valid_at
too_late order s q at e late = rw (e, late) refl

-- A refresh token is good for one refresh: if RefreshToken has granted a pair for it, then it grants none
-- for the same token, told by its identifier and its time limit, after any further requests, as long as the
-- clock has not run back below any of theirs. The store of used tokens is that of one process, or the one
-- that several share, and the latter may fail to answer.
pub refresh_once :
    (order : List AuthUser → List AuthUser) (s : JwtService) (first : Refresh)
    (between : List Refresh) (again : Refresh)
    → is_granted (answer_refresh order s first).0 ≡ true
    → again.claims.token_id ≡ first.claims.token_id
    → again.claims.exp ≡ first.claims.exp
    → All (λ q. q.time ≤ again.time) between
    → is_granted
        (answer_refresh order (answer_all order (answer_refresh order s first).1 between).1 again).0
      ≡ false
refresh_once order s first between again g same_id same_exp times =
    let (at, e, entry) = answer-entry order s first g in
    let s' = (answer_refresh order s first).1 in
    elim (Bool-cases (ltb again.time at)) [
      | inl early ↦
          let kept =
            answer_all-kept order s' between first.claims.token_id at
              (All-weaken (λ q. q.time ≤ again.time) (λ q. q.time < at)
                (λ q h. ground (arith, early)) between times)
              entry in
          answer-refused order (answer_all order s' between).1 again at (same_exp ∙ e) (
            subst (λ id. has_entry id at (answer_all order s' between).1.used ≡ true) (sym same_id)
              kept)
      | inr late ↦ too_late order (answer_all order s' between).1 again at (same_exp ∙ e) late
    ]
