-- ===== src/Limiter/Bounds.antt =====
-- The bounds of the limiter of share passwords: its entries stay within its capacity, and each
-- counts fewer failures than lock it.
use fileupload.Limiter.{
  allow, record_failure, failed_attempt, allow_found, reset, Limiter, attempt_or_zero, cleanup,
  find_attempt, Attempt, delete_oldest, oldest_from, delete_attempt, drop_stale,
}
use fileupload.Base.{
  none, Option, ◌<◌, ◌&&◌, refl, [], ltb, ◌||◌, if◌then◌else◌, eq_refl, ◌==◌, true, false, some,
  ◌+◌, ◌∷◌, ◌≤◌, Bool, ◌≡◌, List, ℕ, Bytes, arith, length,
}

pub length-delete : (k : Bytes) (es : List Attempt) → length (delete_attempt k es) ≤ length es
unfolding delete_attempt
length-delete k [] = omega arith
length-delete k (e ∷ es) = ground (arith, length-delete k es)

-- a key that is there is taken out
length-delete_present :
    (k : Bytes) (es : List Attempt) (a : Attempt)
    → find_attempt k es ≡ some a
    → length (delete_attempt k es) + 1 ≤ length es
unfolding delete_attempt find_attempt
length-delete_present k [] a h = ground arith
length-delete_present k (e ∷ es) a h =
    ground (arith, length-delete k es, length-delete_present k es a)

is_present : Bytes → List Attempt → Bool
is_present k [] = false
is_present k (e ∷ es) = e.key == k || is_present k es

length-delete_has :
    (k : Bytes) (es : List Attempt)
    → is_present k es ≡ true
    → length (delete_attempt k es) + 1 ≤ length es
unfolding delete_attempt is_present
length-delete_has k [] h = ground arith
length-delete_has k (e ∷ es) h = ground (arith, length-delete k es, length-delete_has k es)

oldest-present :
    (e : Attempt) (es : List Attempt) → is_present (oldest_from e es).key (e ∷ es) ≡ true
unfolding oldest_from is_present
oldest-present e [] = ground (arith, eq_refl e.key)
oldest-present e (f ∷ es) =
    ground (arith, oldest-present (if ltb f.last_failure e.last_failure then f else e) es)

length-delete_oldest :
    (e : Attempt) (es : List Attempt) → length (delete_oldest (e ∷ es)) ≤ length es
unfolding delete_oldest
length-delete_oldest e es =
    ground (arith, length-delete_has (oldest_from e es).key (e ∷ es) (oldest-present e es))

pub length-drop_stale :
    (cooldown now : ℕ) (es : List Attempt) → length (drop_stale cooldown now es) ≤ length es
unfolding drop_stale
length-drop_stale cooldown now [] = omega arith
length-drop_stale cooldown now (e ∷ es) = ground (arith, length-drop_stale cooldown now es)

-- a room for one more entry
length-evict :
    (n : ℕ) (es : List Attempt)
    → 1 ≤ n
    → length es ≤ n
    → length (if ltb (length es) n then es else delete_oldest es) + 1 ≤ n
length-evict n [] h hn = ground arith
length-evict n (e ∷ es) h hn = ground (arith, length-delete_oldest e es)

-- each entry counts fewer failures than lock it
abbrev all_below : ℕ → List Attempt → Bool
all_below n [] = true
all_below n (e ∷ es) = ltb e.failures n && all_below n es

below-delete :
    (n : ℕ) (k : Bytes) (es : List Attempt)
    → all_below n es ≡ true
    → all_below n (delete_attempt k es) ≡ true
unfolding delete_attempt
below-delete n k [] h = refl
below-delete n k (e ∷ es) h = ground (arith, below-delete n k es)

below-drop_stale :
    (n cooldown now : ℕ) (es : List Attempt)
    → all_below n es ≡ true
    → all_below n (drop_stale cooldown now es) ≡ true
unfolding drop_stale
below-drop_stale n cooldown now [] h = refl
below-drop_stale n cooldown now (e ∷ es) h = ground (arith, below-drop_stale n cooldown now es)

below-delete_oldest :
    (n : ℕ) (es : List Attempt) → all_below n es ≡ true → all_below n (delete_oldest es) ≡ true
unfolding delete_oldest
below-delete_oldest n [] h = refl
below-delete_oldest n (e ∷ es) h = below-delete n (oldest_from e es).key (e ∷ es) h

below-find :
    (n : ℕ) (k : Bytes) (es : List Attempt)
    → 1 ≤ n
    → all_below n es ≡ true
    → (attempt_or_zero k (find_attempt k es)).failures < n
unfolding find_attempt
below-find n k [] pos h = pos
below-find n k (e ∷ es) pos h = ground (arith, below-find n k es)

-- At most max_entries entries, each with fewer than max_failures failures.
pub record IsBounded (l : Limiter) : Type 0 where
  pub capacity : 1 ≤ l.max_entries
  pub tolerance : 1 ≤ l.max_failures
  pub entries : length l.attempts ≤ l.max_entries
  pub counts : all_below l.max_failures l.attempts ≡ true

cleanup-entries :
    (now : ℕ) (l : Limiter)
    → IsBounded l
    → (length (cleanup now l).attempts + 1 ≤ l.max_entries)
      × (all_below l.max_failures (cleanup now l).attempts ≡ true)
unfolding cleanup
cleanup-entries now l h = ground (
  arith,
  length-evict l.max_entries (drop_stale l.cooldown now l.attempts) h.capacity,
  length-drop_stale l.cooldown now l.attempts,
  h.entries,
  below-drop_stale l.max_failures l.cooldown now l.attempts h.counts,
  below-delete_oldest l.max_failures (drop_stale l.cooldown now l.attempts),
)

cleanup-IsBounded : (now : ℕ) (l : Limiter) → IsBounded l → IsBounded (cleanup now l)
unfolding cleanup
cleanup-IsBounded now l h = record {
  capacity = h.capacity;
  tolerance = h.tolerance;
  entries = ground (arith, cleanup-entries now l h);
  counts = ground (arith, cleanup-entries now l h);
}

reset-IsBounded : (k : Bytes) (l : Limiter) → IsBounded l → IsBounded (reset k l)
unfolding reset
reset-IsBounded k l h = record {
  capacity = h.capacity;
  tolerance = h.tolerance;
  entries = ground (arith, length-delete k l.attempts, h.entries);
  counts = below-delete l.max_failures k l.attempts h.counts;
}

allow_found-IsBounded :
    (now : ℕ) (k : Bytes) (l : Limiter) (found : Option Attempt)
    → IsBounded l
    → IsBounded (allow_found now k l found).1
unfolding allow_found reset
allow_found-IsBounded now k l none h = h
allow_found-IsBounded now k l (some a) h = ground (arith, reset-IsBounded k l h, h)

failed_attempt-below :
    (now : ℕ) (l : Limiter) (a : Attempt)
    → 1 ≤ l.max_failures
    → (failed_attempt now l a).failures < l.max_failures
unfolding failed_attempt
failed_attempt-below now l a h = ground arith

record_failure-IsBounded :
    (now : ℕ) (k : Bytes) (l : Limiter) → IsBounded l → IsBounded (record_failure now k l).1
unfolding record_failure
record_failure-IsBounded now k l h =
    let c = cleanup now l in
    let a = failed_attempt now l (attempt_or_zero k (find_attempt k c.attempts)) in
    record {
      capacity = (cleanup-IsBounded now l h).capacity;
      tolerance = (cleanup-IsBounded now l h).tolerance;
      entries = ground (arith, length-delete a.key c.attempts, cleanup-entries now l h);
      counts = ground (
        arith,
        failed_attempt-below now l (attempt_or_zero k (find_attempt k c.attempts)) h.tolerance,
        below-delete l.max_failures a.key c.attempts,
        cleanup-entries now l h,
      );
    }

-- No operation lets the limiter grow past its capacity, or lets an entry count as many failures as
-- lock it, if neither was so before and the capacity and the number of failures are at least one.
limiter_bounds :
    (now : ℕ) (k : Bytes) (l : Limiter)
    → IsBounded l
    → IsBounded (allow now k l).1 × IsBounded (record_failure now k l).1 × IsBounded (reset k l)
unfolding allow
limiter_bounds now k l h = (
  allow_found-IsBounded now k (cleanup now l) _ (cleanup-IsBounded now l h),
  record_failure-IsBounded now k l h,
  reset-IsBounded k l h,
)
