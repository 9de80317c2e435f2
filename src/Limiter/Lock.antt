-- ===== src/Limiter/Lock.antt =====
-- A key that is locked stays locked: what is asked of other keys, and further failures of its own,
-- do not open it before its time.
use fileupload.Limiter.Bounds.{length-delete, length-drop_stale}
use fileupload.Limiter.{
  failed_attempt, set_attempt, allow_found, reset, record_failure, allow, Limiter, attempt_or_zero,
  cleanup, is_current, Attempt, delete_attempt, find_attempt, drop_stale,
}
use std.Path.{subst}
use fileupload.Base.{
  sym, refl, none, some, Option, inr, inl, Bool-cases, ◌≤◌, ltb, [], if◌then◌else◌, ◌+◌, ◌&&◌, ◌∷◌,
  true, false, ◌==◌, ◌≡◌, leb, Bool, List, ◌<◌, Bytes, ℕ, arith, length, eq_iff,
}

-- the entry is locked until a time or longer
abbrev pub locks : ℕ → ℕ → Attempt → Bool
locks cooldown until a = leb until a.locked_until && leb until (a.last_failure + cooldown)

-- The first entry of the key is locked until that time, or longer.
unfoldable pub locked_in : ℕ → ℕ → Bytes → List Attempt → Bool
locked_in cooldown until k [] = false
locked_in cooldown until k (e ∷ es) =
    if e.key == k then locks cooldown until e else locked_in cooldown until k es

locked-delete :
    (cooldown until : ℕ) (k k' : Bytes) (es : List Attempt)
    → k' == k ≡ false
    → locked_in cooldown until k es ≡ true
    → locked_in cooldown until k (delete_attempt k' es) ≡ true
unfolding delete_attempt locked_in
locked-delete cooldown until k k' [] d h = h
locked-delete cooldown until k k' (e ∷ es) d h =
    ground
      (arith, eq_iff e.key k, eq_iff e.key k', eq_iff k' k, locked-delete cooldown until k k' es d)

locks-current :
    (cooldown until now : ℕ) (a : Attempt)
    → now < until
    → locks cooldown until a ≡ true
    → is_current cooldown now a ≡ true
locks-current cooldown until now a lt h = ground arith

locked-drop_stale :
    (cooldown until now : ℕ) (k : Bytes) (es : List Attempt)
    → now < until
    → locked_in cooldown until k es ≡ true
    → locked_in cooldown until k (drop_stale cooldown now es) ≡ true
unfolding drop_stale locked_in
locked-drop_stale cooldown until now k [] lt h = h
locked-drop_stale cooldown until now k (e ∷ es) lt h =
    ground
      (arith, locks-current cooldown until now e lt, locked-drop_stale cooldown until now k es lt)

pub locked-find :
    (cooldown until : ℕ) (k : Bytes) (es : List Attempt)
    → locked_in cooldown until k es ≡ true
    → locks cooldown until (attempt_or_zero k (find_attempt k es)) ≡ true
unfolding find_attempt locked_in
locked-find cooldown until k [] h = ground arith
locked-find cooldown until k (e ∷ es) h = ground (arith, locked-find cooldown until k es)

-- between the start of a lock and its end
abbrev pub in_lock : ℕ → ℕ → ℕ → Bool
in_lock cooldown until now = ltb now until && leb until (now + cooldown)

-- The key is locked until then or longer, and there is room for more entries.
pub record IsLocked (until : ℕ) (k : Bytes) (room : ℕ) (l : Limiter) : Type 0 where
  pub entry : locked_in l.cooldown until k l.attempts ≡ true
  pub space : length l.attempts + room ≤ l.max_entries

cleanup-IsLocked :
    (until now room : ℕ) (k : Bytes) (l : Limiter)
    → now < until
    → IsLocked until k (room + 1) l
    → IsLocked until k (room + 1) (cleanup now l)
unfolding cleanup
cleanup-IsLocked until now room k l lt h = record {
  entry = ground (
    arith,
    h.space,
    length-drop_stale l.cooldown now l.attempts,
    locked-drop_stale l.cooldown until now k l.attempts lt h.entry,
  );
  space = ground (arith, h.space, length-drop_stale l.cooldown now l.attempts);
}

delete-IsLocked :
    (until room : ℕ) (k k' : Bytes) (l : Limiter)
    → k' == k ≡ false
    → IsLocked until k room l
    → IsLocked until k room (record l { attempts = delete_attempt k' l.attempts })
delete-IsLocked until room k k' l d h = record {
  entry = locked-delete l.cooldown until k k' l.attempts d h.entry;
  space = ground (arith, h.space, length-delete k' l.attempts);
}

-- a key that is locked is refused
refuses :
    (until now : ℕ) (k : Bytes) (l : Limiter) (found : Option Attempt)
    → now < until
    → locks l.cooldown until (attempt_or_zero k found) ≡ true
    → ((allow_found now k l found).1 ≡ l)
      × ((allow_found now k l found).0.1 ≡ false)
      × (until ≤ now + (allow_found now k l found).0.0)
unfolding allow_found
refuses until now k l none lt h = ground arith
refuses until now k l (some a) lt h = ground arith

allow_other-IsLocked :
    (until now room : ℕ) (k k' : Bytes) (l : Limiter) (found : Option Attempt)
    → k' == k ≡ false
    → IsLocked until k room l
    → IsLocked until k room (allow_found now k' l found).1
unfolding allow_found
allow_other-IsLocked until now room k k' l none d h = h
allow_other-IsLocked until now room k k' l (some a) d h =
    ground (arith, delete-IsLocked until room k k' l d h, h)

pub allow_locked :
    (until now room : ℕ) (k : Bytes) (l : Limiter)
    → now < until
    → IsLocked until k (room + 1) l
    → ((allow now k l).1 ≡ cleanup now l)
      × ((allow now k l).0.1 ≡ false)
      × (until ≤ now + (allow now k l).0.0)
unfolding allow cleanup
allow_locked until now room k l lt h =
    let l' = cleanup now l in
    refuses until now k l' (find_attempt k l'.attempts) lt
      (locked-find l'.cooldown until k l'.attempts (cleanup-IsLocked until now room k l lt h).entry)

allow_same-IsLocked :
    (until now room : ℕ) (k k' : Bytes) (l : Limiter)
    → k ≡ k'
    → now < until
    → IsLocked until k (room + 1) l
    → IsLocked until k (room + 1) (allow now k' l).1
allow_same-IsLocked until now room k k' l p lt h =
    subst (λ j. IsLocked until k (room + 1) (allow now j l).1) p
      (subst (IsLocked until k (room + 1)) (sym (allow_locked until now room k l lt h).0)
        (cleanup-IsLocked until now room k l lt h))

pub allow-IsLocked :
    (until now room : ℕ) (k k' : Bytes) (l : Limiter)
    → now < until
    → IsLocked until k (room + 1) l
    → IsLocked until k (room + 1) (allow now k' l).1
unfolding allow
allow-IsLocked until now room k k' l lt h = elim (Bool-cases (k' == k)) [
  | inl same ↦ allow_same-IsLocked until now room k k' l (sym ((eq_iff k' k).0 same)) lt h
  | inr other ↦
      allow_other-IsLocked until now (room + 1) k k' (cleanup now l)
        (find_attempt k' (cleanup now l).attempts) other (cleanup-IsLocked until now room k l lt h)
]

-- another failure of the key puts the end of the lock later, or leaves it
failed_attempt-locks :
    (until now : ℕ) (l : Limiter) (a : Attempt)
    → in_lock l.cooldown until now ≡ true
    → locks l.cooldown until a ≡ true
    → locks l.cooldown until (failed_attempt now l a) ≡ true
unfolding failed_attempt
failed_attempt-locks until now l a lt h = ground arith

pub find-key : (k : Bytes) (es : List Attempt) → (attempt_or_zero k (find_attempt k es)).key ≡ k
unfolding find_attempt
find-key k [] = refl
find-key k (e ∷ es) = ground (arith, eq_iff e.key k, find-key k es)

pub failed_attempt-key :
    (now : ℕ) (l : Limiter) (a : Attempt) → (failed_attempt now l a).key ≡ a.key
unfolding failed_attempt
failed_attempt-key now l a = ground arith

pub set_attempt-locked :
    (cooldown until : ℕ) (k : Bytes) (a : Attempt) (es : List Attempt)
    → (a.key == k ≡ true → locks cooldown until a ≡ true)
    → locked_in cooldown until k es ≡ true
    → locked_in cooldown until k (set_attempt a es) ≡ true
unfolding locked_in
set_attempt-locked cooldown until k a es own h =
    ground (arith, own, locked-delete cooldown until k a.key es)

failed_same-locks :
    (until now : ℕ) (k k' : Bytes) (l : Limiter) (es : List Attempt)
    → k ≡ k'
    → in_lock l.cooldown until now ≡ true
    → locked_in l.cooldown until k es ≡ true
    → locks l.cooldown until (failed_attempt now l (attempt_or_zero k' (find_attempt k' es))) ≡ true
failed_same-locks until now k k' l es p lt h =
    subst
      (λ j.
        locks l.cooldown until (failed_attempt now l (attempt_or_zero j (find_attempt j es)))
        ≡ true)
      p
      (failed_attempt-locks until now l (attempt_or_zero k (find_attempt k es)) lt
        (locked-find l.cooldown until k es h))

failed_own-locks :
    (until now : ℕ) (k k' : Bytes) (l : Limiter) (es : List Attempt)
    → in_lock l.cooldown until now ≡ true
    → locked_in l.cooldown until k es ≡ true
    → (failed_attempt now l (attempt_or_zero k' (find_attempt k' es))).key == k ≡ true
    → locks l.cooldown until (failed_attempt now l (attempt_or_zero k' (find_attempt k' es))) ≡ true
failed_own-locks until now k k' l es lt h own =
    let a = attempt_or_zero k' (find_attempt k' es) in
    failed_same-locks until now k k' l es
      (ground
        (arith, failed_attempt-key now l a, find-key k' es, eq_iff (failed_attempt now l a).key k))
      lt h

pub in_lock-lt : (cooldown until now : ℕ) → in_lock cooldown until now ≡ true → now < until
in_lock-lt cooldown until now h = ground arith

pub record_failure-IsLocked :
    (until now room : ℕ) (k k' : Bytes) (l : Limiter)
    → in_lock l.cooldown until now ≡ true
    → IsLocked until k (room + 1) l
    → IsLocked until k room (record_failure now k' l).1
unfolding record_failure
record_failure-IsLocked until now room k k' l lt h =
    let c = cleanup now l in
    let kept = cleanup-IsLocked until now room k l (in_lock-lt l.cooldown until now lt) h in
    let old = attempt_or_zero k' (find_attempt k' c.attempts) in
    let a = failed_attempt now l old in
    record {
      entry =
          set_attempt-locked l.cooldown until k a c.attempts
            (failed_own-locks until now k k' l c.attempts lt kept.entry) kept.entry;
      space = ground (arith, kept.space, length-delete a.key c.attempts);
    }

pub reset-IsLocked :
    (until room : ℕ) (k k' : Bytes) (l : Limiter)
    → k' == k ≡ false
    → IsLocked until k (room + 1) l
    → IsLocked until k room (reset k' l)
unfolding reset
reset-IsLocked until room k k' l d h =
    let kept = delete-IsLocked until (room + 1) k k' l d h in
    record { entry = kept.entry; space = ground (arith, kept.space) }
