-- ===== src/Store/Quota.antt =====
-- internal/adapters/metadata/sqlite.go: ReserveNamespaceBytes and ReleaseNamespaceReservation.
use fileupload.Base.{
  true, ◌-◌, ◌^◌, ltb, pos_part, to_int64, ℕ, ◌+◌, ◌≤◌, ◌<◌, ◌≡◌, ◌↔◌, false, Bool, not, ◌&&◌, ◌||◌,
  Bytes, is_empty, if◌then◌else◌, ℤ, pos, negsuc, ltb_ℤ, arith,
}
use fileupload.Domain.{backend, invalid_argument, quota_exceeded, ok}
use fileupload.World.{
  after, result, World, Db, Exec, raise, gets, backend_call, modify_db, require, ◌>>=◌, ◌>>◌,
}
use fileupload.Meta.Files.{used_bytes}
use fileupload.Meta.Quota.{
  reserved_bytes, current_bytes, upsert, release, OwnedBy, reserved_bytes-upsert, current_bytes-le,
}

-- quota > 0 && used+reserved-current+bytes > quota; the sum of int64 values wraps around. A column holds an
-- int64, so that 2^64 less its value is the bit pattern of its negation.
unfoldable pub over_quota : Bytes → Bytes → ℕ → ℤ → Db → Bool
unfolding to_int64
over_quota ns id bytes quota d =
    ltb_ℤ (pos 0) quota
    && ltb_ℤ quota (
        to_int64 (
          used_bytes ns d.files
          + reserved_bytes ns d.reservations
          + (2 ^ 64 - current_bytes id d.reservations)
          + bytes))

-- SQLite's SUM fails where it comes to 2^63
unfoldable pub sums_fit : Bytes → Db → Bool
sums_fit ns d =
    ltb (used_bytes ns d.files) (2 ^ 63) && ltb (reserved_bytes ns d.reservations) (2 ^ 63)

reserve_checked : Bytes → Bytes → ℕ → ℤ → Exec (Unit {0})
unfolding over_quota sums_fit
reserve_checked ns id bytes quota = do
  backend_call
  fit ← gets (λ w. sums_fit ns w.db)
  require fit backend
  over ← gets (λ w. over_quota ns id bytes quota w.db)
  require (not over) quota_exceeded
  modify_db (λ d. record d {
    reservations =
        upsert (record { reservation_id = id; namespace = ns; bytes = bytes }) d.reservations;
  })

unfoldable pub reserve_namespace_bytes : Bytes → Bytes → ℤ → ℤ → Exec (Unit {0})
unfolding reserve_checked
reserve_namespace_bytes ns id (negsuc n) quota = raise invalid_argument
reserve_namespace_bytes ns id (pos bytes) quota =
    if is_empty ns || is_empty id then raise invalid_argument else reserve_checked ns id bytes quota

unfoldable pub release_namespace_reservation : Bytes → Exec (Unit {0})
release_namespace_reservation id = do
  require (not (is_empty id)) invalid_argument
  backend_call
  modify_db (λ d. record d { reservations = release id d.reservations })

-- The bytes that a namespace uses or has reserved.
abbrev pub committed : Bytes → Db → ℕ
committed ns d = used_bytes ns d.files + reserved_bytes ns d.reservations

-- Without wrap-around, the test of the quota is that of the numbers.
over_quota_lem :
    (ns id : Bytes) (b quota : ℕ) (d : Db)
    → 0 < quota
    → committed ns d + b < 2 ^ 63
    → current_bytes id d.reservations < 2 ^ 63
    → (over_quota ns id b (pos quota) d ≡ false)
      ↔ (committed ns d + b ≤ quota + current_bytes id d.reservations)
unfolding over_quota to_int64
over_quota_lem ns id b quota d q small held = ground arith

fits_current :
    (id ns : Bytes) (d : Db)
    → sums_fit ns d ≡ true
    → current_bytes id d.reservations ≤ reserved_bytes ns d.reservations
    → current_bytes id d.reservations < 2 ^ 63
unfolding sums_fit
fits_current id ns d fit held = ground arith

-- From 2^63 on, the sum is negative, and under every quota.
over_quota-wrapped :
    (ns id : Bytes) (b quota : ℕ) (d : Db)
    → 2 ^ 63 + current_bytes id d.reservations ≤ committed ns d + b
    → committed ns d + b < 2 ^ 64 + current_bytes id d.reservations
    → current_bytes id d.reservations ≤ reserved_bytes ns d.reservations
    → current_bytes id d.reservations < 2 ^ 63
    → over_quota ns id b (pos quota) d ≡ false
unfolding over_quota to_int64
over_quota-wrapped ns id b quota d least most held small = ground arith

-- A granted reservation keeps the namespace within its positive quota, if what the namespace has
-- committed and what is asked for stay below 2^63 together, and if no other namespace has a reservation
-- of the same identifier.
pub reserve-WithinQuota :
    (ns id : Bytes) (bytes : ℤ) (quota : ℕ) (w : World) {w' : World}
    → 0 < quota
    → committed ns w.db + pos_part bytes < 2 ^ 63
    → OwnedBy id ns w.db.reservations
    → reserve_namespace_bytes ns id bytes (pos quota) w ≡ (ok tt, w')
    → committed ns w'.db ≤ quota
unfolding reserve_namespace_bytes
reserve-WithinQuota ns id (negsuc n) quota w q small o e = ground arith
reserve-WithinQuota ns id (pos b) quota w q small o e =
    let held = current_bytes-le id ns w.db.reservations o in
    ground (
      arith,
      over_quota_lem ns id b quota w.db q small (omega (arith, small, held)),
      reserved_bytes-upsert (record { reservation_id = id; namespace = ns; bytes = b })
          w.db.reservations o,
      held,
    )

-- With the database up and a positive quota, a reservation of a namespace is granted exactly when
-- it fits beside what the namespace has committed, not counting what the same reservation holds
-- already. Neither identifier is empty, what is committed and what is asked for stay below 2^63
-- together, and so does what the reservation holds.
pub reserve_iff :
    (ns id : Bytes) (b quota : ℕ) (w : World)
    → is_empty ns ≡ false
    → is_empty id ≡ false
    → 0 < quota
    → committed ns w.db + b < 2 ^ 63
    → current_bytes id w.db.reservations < 2 ^ 63
    → w.fails w.calls ≡ false
    → (result (reserve_namespace_bytes ns id (pos b) (pos quota)) w ≡ ok tt)
      ↔ (committed ns w.db + b ≤ quota + current_bytes id w.db.reservations)
unfolding reserve_namespace_bytes sums_fit
reserve_iff ns id b quota w hn hi q small held up =
    ground (arith, over_quota_lem ns id b quota w.db q small held)

-- Where the sum that ReserveNamespaceBytes compares comes to 2^63, up to 2^64, it wraps around: the
-- reservation is granted whatever the quota is, and takes the namespace beyond it. The database is up,
-- neither identifier is empty, the two sums of the tables fit into an int64, as the quota does, and no
-- other namespace has a reservation of the same identifier.
pub reserve_wraps :
    (ns id : Bytes) (b quota : ℕ) (w : World)
    → is_empty ns ≡ false
    → is_empty id ≡ false
    → quota < 2 ^ 63
    → sums_fit ns w.db ≡ true
    → OwnedBy id ns w.db.reservations
    → 2 ^ 63 + current_bytes id w.db.reservations ≤ committed ns w.db + b
    → committed ns w.db + b < 2 ^ 64 + current_bytes id w.db.reservations
    → w.fails w.calls ≡ false
    → (result (reserve_namespace_bytes ns id (pos b) (pos quota)) w ≡ ok tt)
      × (quota < committed ns (after (reserve_namespace_bytes ns id (pos b) (pos quota)) w).db)
unfolding reserve_namespace_bytes
reserve_wraps ns id b quota w hn hi small fit o least most up =
    let held = current_bytes-le id ns w.db.reservations o in
    ground (
      arith,
      fit,
      over_quota-wrapped ns id b quota w.db least most held (fits_current id ns w.db fit held),
      reserved_bytes-upsert (record { reservation_id = id; namespace = ns; bytes = b })
          w.db.reservations o,
    )
