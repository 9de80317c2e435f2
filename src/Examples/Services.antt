-- ===== src/Examples/Services.antt =====
-- The theorems on stores, shares and the limiter, applied in the office.
use fileupload.Examples.Office.{reserved_office, office, guard, same_bytes}
use fileupload.Meta.Quota.{current_bytes}
use fileupload.Limiter.{allow, record_failure}
use fileupload.Limiter.Lockout.{limiter_lock, check, failed, respond_all}
use fileupload.Share.Downloads.{downloads_bounded, takes, checks, limit, taken, steps}
use fileupload.Store.Quota.{
  reserve_iff, reserve_wraps, sums_fit, reserve-WithinQuota, committed, reserve_namespace_bytes,
}
use fileupload.Store.{get_blob_by_sha, set_files, put_file, acquire_row, acquire_blob}
use fileupload.Meta.Files.{live_file, insert_file, has_id, refs}
use fileupload.Domain.{ok}
use fileupload.Base.{
  ℕ, ◌^◌, ◌-◌, ◌≢◌, ◌==◌, length, ◌+◌, eqb, List, ◌≤◌, ltb_ℤ, ◌<◌, Bool, sort_by, map, ◌↔◌, true,
  if◌then◌else◌, ◌≡◌, refl, eq_iff, some, Option, none, false, ◌++◌, [], pos, Bytes, ◌∷◌, arith,
  bytes,
}
use fileupload.World.{after, result}

link_limited : 1 ≤ limit (bytes "t1") office
unfolding fileupload.Share.find_share ◌==◌
link_limited = omega arith

link_within : taken (bytes "t1") office ≤ limit (bytes "t1") office
unfolding fileupload.Share.find_share ◌==◌
link_within = omega arith

downloads_bounded_example :
    let r = steps same_bytes (bytes "t1") (checks [] true ∷ takes ∷ takes ∷ []) office in
    (taken (bytes "t1") office + r.0 ≡ taken (bytes "t1") r.1)
    × (taken (bytes "t1") r.1 ≤ limit (bytes "t1") office)
downloads_bounded_example =
    downloads_bounded same_bytes (bytes "t1") (checks [] true ∷ takes ∷ takes ∷ []) office
      link_limited link_within

second_locks : (record_failure 100 (bytes "k") guard).0.1 ≡ true
unfolding record_failure ◌==◌
second_locks = refl

limiter_lock_example :
    let l' =
      respond_all
        ((110, failed (bytes "j")) ∷ (120, check (bytes "k")) ∷ [])
        (record_failure 100 (bytes "k") guard).1 in
    ((allow 140 (bytes "k") l').0.1 ≡ false) × (150 ≤ 140 + (allow 140 (bytes "k") l').0.0)
limiter_lock_example =
    limiter_lock 100 140 (bytes "k") ((110, failed (bytes "j")) ∷ (120, check (bytes "k")) ∷ [])
      guard second_locks (omega arith) refl (omega arith)

within_int64 : committed (bytes "team") office.db + 95 < 2 ^ 63
unfolding fileupload.Meta.Files.used_bytes ◌==◌ fileupload.Meta.Quota.reserved_bytes
within_int64 = omega arith

none_held : current_bytes (bytes "r1") office.db.reservations < 2 ^ 63
unfolding current_bytes
none_held = omega arith

reserve_iff_example :
    (result (reserve_namespace_bytes (bytes "team") (bytes "r1") (pos 95) (pos 100)) office ≡ ok tt)
    ↔ (committed (bytes "team") office.db + 95
        ≤ 100 + current_bytes (bytes "r1") office.db.reservations)
reserve_iff_example =
    reserve_iff (bytes "team") (bytes "r1") 95 100 office refl refl (omega arith) within_int64
      none_held refl

-- the longest upload that an int64 can declare
abbrev longest : ℕ
longest = 9_223_372_036_854_775_807

sums_of_office : sums_fit (bytes "team") office.db ≡ true
unfolding sums_fit fileupload.Meta.Files.used_bytes ◌==◌ fileupload.Meta.Quota.reserved_bytes
sums_of_office = refl

beyond_int64 :
    2 ^ 63 + current_bytes (bytes "r1") office.db.reservations
    ≤ committed (bytes "team") office.db + longest
unfolding fileupload.Meta.Files.used_bytes ◌==◌ fileupload.Meta.Quota.reserved_bytes current_bytes
beyond_int64 = omega arith

below_two_turns :
    committed (bytes "team") office.db + longest
    < 2 ^ 64 + current_bytes (bytes "r1") office.db.reservations
unfolding fileupload.Meta.Files.used_bytes ◌==◌ fileupload.Meta.Quota.reserved_bytes current_bytes
below_two_turns = omega arith

reserve_wraps_example :
    let reserve = reserve_namespace_bytes (bytes "team") (bytes "r1") (pos longest) (pos 100) in
    (result reserve office ≡ ok tt) × (100 < committed (bytes "team") (after reserve office).db)
reserve_wraps_example =
    reserve_wraps (bytes "team") (bytes "r1") longest 100 office refl refl (omega arith)
      sums_of_office tt beyond_int64 below_two_turns refl

room_reserved :
    reserve_namespace_bytes (bytes "team") (bytes "r1") (pos 95) (pos 100) office
    ≡ (ok tt, reserved_office)
unfolding reserve_namespace_bytes fileupload.Store.Quota.over_quota fileupload.Store.Quota.sums_fit
    fileupload.Base.to_int64 fileupload.Meta.Files.used_bytes ◌==◌
    fileupload.Meta.Quota.reserved_bytes current_bytes fileupload.Meta.Quota.upsert
room_reserved = refl

reserve-WithinQuota_example : committed (bytes "team") reserved_office.db ≤ 100
reserve-WithinQuota_example =
    reserve-WithinQuota (bytes "team") (bytes "r1") (pos 95) 100 office (omega arith) within_int64
      tt room_reserved
