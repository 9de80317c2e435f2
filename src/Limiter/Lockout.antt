-- ===== src/Limiter/Lockout.antt =====
-- A key that is locked is refused until its time, through any run of requests.
use fileupload.Limiter.Bounds.{length-delete, length-drop_stale}
use fileupload.Limiter.{
  failed_attempt, set_attempt, allow_found, reset, record_failure, allow, Limiter, attempt_or_zero,
  cleanup, Attempt, find_attempt,
}
use fileupload.Base.{
  refl, none, some, Option, not, ◌≤◌, [], ◌+◌, ◌&&◌, ◌∷◌, true, false, ◌==◌, ◌≡◌, leb, Bool, List,
  ◌<◌, Bytes, ℕ, arith, length, eq_iff,
}
use fileupload.Limiter.Lock.{
  reset-IsLocked, record_failure-IsLocked, find-key, in_lock-lt, locked_in, allow-IsLocked, locks,
  allow_locked, failed_attempt-key, in_lock, IsLocked,
}

-- what the limiter is asked, with the key of the client and the share
pub data Request : Type 0 where
  check : Bytes → Request
  failed : Bytes → Request
  passed : Bytes → Request

pub respond : ℕ → Request → Limiter → Limiter
respond now (check k) l = (allow now k l).1
respond now (failed k) l = (record_failure now k l).1
respond now (passed k) l = reset k l

pub respond_all : List (ℕ × Request) → Limiter → Limiter
unfolding respond
respond_all [] l = l
respond_all (r ∷ rs) l = respond_all rs (respond r.0 r.1 l)

-- a request in that time that does not reset the key
abbrev pub leaves_locked : ℕ → ℕ → Bytes → ℕ → Request → Bool
leaves_locked cooldown until k now (check k') = in_lock cooldown until now
leaves_locked cooldown until k now (failed k') = in_lock cooldown until now
leaves_locked cooldown until k now (passed k') = in_lock cooldown until now && not (k' == k)

abbrev pub all_leave_locked : ℕ → ℕ → Bytes → List (ℕ × Request) → Bool
all_leave_locked cooldown until k [] = true
all_leave_locked cooldown until k (r ∷ rs) =
    leaves_locked cooldown until k r.0 r.1 && all_leave_locked cooldown until k rs

allow_found-cooldown :
    (now : ℕ) (k : Bytes) (l : Limiter) (found : Option Attempt)
    → (allow_found now k l found).1.cooldown ≡ l.cooldown
unfolding allow_found
allow_found-cooldown now k l none = refl
allow_found-cooldown now k l (some a) = ground arith

respond-cooldown : (now : ℕ) (r : Request) (l : Limiter) → (respond now r l).cooldown ≡ l.cooldown
unfolding respond allow record_failure reset cleanup
respond-cooldown now (check k) l =
    allow_found-cooldown now k (cleanup now l) (find_attempt k (cleanup now l).attempts)
respond-cooldown now (failed k) l = refl
respond-cooldown now (passed k) l = refl

less_room :
    (until room : ℕ) (k : Bytes) (l : Limiter)
    → IsLocked until k (room + 1) l
    → IsLocked until k room l
less_room until room k l h = record { entry = h.entry; space = ground (arith, h.space) }

respond-IsLocked :
    (until now room : ℕ) (k : Bytes) (r : Request) (l : Limiter)
    → leaves_locked l.cooldown until k now r ≡ true
    → IsLocked until k (room + 1) l
    → IsLocked until k room (respond now r l)
unfolding respond
respond-IsLocked until now room k (check k') l lv h =
    less_room until room k (allow now k' l).1
      (allow-IsLocked until now room k k' l (in_lock-lt l.cooldown until now lv) h)
respond-IsLocked until now room k (failed k') l lv h =
    record_failure-IsLocked until now room k k' l lv h
respond-IsLocked until now room k (passed k') l lv h =
    reset-IsLocked until room k k' l (ground arith) h

respond_all-IsLocked :
    (until : ℕ) (k : Bytes) (rs : List (ℕ × Request)) (l : Limiter)
    → all_leave_locked l.cooldown until k rs ≡ true
    → IsLocked until k (length rs + 1) l
    → IsLocked until k 1 (respond_all rs l)
unfolding respond_all
respond_all-IsLocked until k [] l lv h = h
respond_all-IsLocked until k (r ∷ rs) l lv h =
    respond_all-IsLocked until k rs (respond r.0 r.1 l)
      (ground (arith, respond-cooldown r.0 r.1 l, lv))
      (respond-IsLocked until r.0 (length rs + 1) k r.1 l (ground arith)
        (record { entry = h.entry; space = ground (arith, h.space) }))

fresh_lock :
    (now : ℕ) (l : Limiter) (a : Attempt)
    → leb l.max_failures (a.failures + 1) ≡ true
    → locks l.cooldown (now + l.cooldown) (failed_attempt now l a) ≡ true
unfolding failed_attempt
fresh_lock now l a h = ground arith

set_own-locked :
    (cooldown until : ℕ) (k : Bytes) (a : Attempt) (es : List Attempt)
    → a.key ≡ k
    → locks cooldown until a ≡ true
    → locked_in cooldown until k (set_attempt a es) ≡ true
unfolding locked_in
set_own-locked cooldown until k a es e h = ground (arith, eq_iff a.key k)

length-cleanup :
    (now room : ℕ) (l : Limiter)
    → length l.attempts + (room + 1) ≤ l.max_entries
    → length (cleanup now l).attempts ≤ length l.attempts
unfolding cleanup
length-cleanup now room l h = ground (arith, length-drop_stale l.cooldown now l.attempts)

-- the attempt that a failure of the key is counted in
abbrev old_attempt : ℕ → Bytes → Limiter → Attempt
old_attempt now k l = attempt_or_zero k (find_attempt k (cleanup now l).attempts)

locked-full :
    (now : ℕ) (k : Bytes) (l : Limiter)
    → (record_failure now k l).0.1 ≡ true
    → leb l.max_failures ((old_attempt now k l).failures + 1) ≡ true
unfolding record_failure
locked-full now k l h = ground arith

failure_locks :
    (now room : ℕ) (k : Bytes) (l : Limiter)
    → (record_failure now k l).0.1 ≡ true
    → length l.attempts + (room + 1) ≤ l.max_entries
    → IsLocked (now + l.cooldown) k room (record_failure now k l).1
unfolding record_failure
failure_locks now room k l locked fits =
    let es = (cleanup now l).attempts in
    let a = failed_attempt now l (old_attempt now k l) in
    record {
      entry =
          set_own-locked l.cooldown (now + l.cooldown) k a es
            (ground (arith, failed_attempt-key now l (old_attempt now k l), find-key k es))
            (fresh_lock now l (old_attempt now k l) (locked-full now k l locked));
      space = ground (arith, length-delete a.key es, length-cleanup now room l fits);
    }

record_failure-cooldown :
    (now : ℕ) (k : Bytes) (l : Limiter) → (record_failure now k l).1.cooldown ≡ l.cooldown
unfolding record_failure cleanup
record_failure-cooldown now k l = refl

-- A failure that locks a key locks it for the whole cooldown: whatever the limiter is asked in
-- that time, of this key or of others, short of a success of the key itself, the key is refused
-- until the cooldown is over, and told to wait at least until then. The limiter's entries before that
-- failure, the number of requests in that time, of whatever kind, and two more come to its capacity at
-- most: an entry that is added at capacity makes the limiter drop the oldest one, even if it is locked.
pub limiter_lock :
    (start now : ℕ) (k : Bytes) (rs : List (ℕ × Request)) (l : Limiter)
    → (record_failure start k l).0.1 ≡ true
    → length l.attempts + (length rs + 2) ≤ l.max_entries
    → all_leave_locked l.cooldown (start + l.cooldown) k rs ≡ true
    → now < start + l.cooldown
    → let l' = respond_all rs (record_failure start k l).1 in
      ((allow now k l').0.1 ≡ false) × (start + l.cooldown ≤ now + (allow now k l').0.0)
limiter_lock start now k rs l locked fits lv lt =
    let l₁ = (record_failure start k l).1 in
    let until = start + l.cooldown in
    let h = allow_locked until now 0 k (respond_all rs l₁) lt (
      respond_all-IsLocked until k rs l₁ (ground (arith, record_failure-cooldown start k l))
        (failure_locks start (length rs + 1) k l locked (ground arith))) in
    (h.1, h.2)
