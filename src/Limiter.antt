-- ===== src/Limiter.antt =====
-- internal/transport/share_password_limiter.go: the limit on failed passwords of a share. A time is
-- a number of nanoseconds, the zero time is 0. The map of attempts is the list of its entries in
-- the order in which they were written; an entry with the oldest failure is the first such. The
-- mutex makes each operation one step.
pub mod Lock
pub mod Lockout
pub mod Bounds
use fileupload.Upload.Config.{not_positive}
use fileupload.Base.{
  ◌*◌, false, ◌&&◌, ◌+◌, pos_part, length, eqb, ◌-◌, leb, some, not, true, none, ◌==◌, ltb, ◌++◌,
  [], Bool, if◌then◌else◌, Option, ℤ, ℕ, ◌∷◌, Bytes, List,
}

pub record Attempt : Type 0 where
  pub key : Bytes
  pub failures : ℕ
  pub last_failure : ℕ
  pub locked_until : ℕ

pub record Limiter : Type 0 where
  pub attempts : List Attempt
  pub max_failures : ℕ
  pub cooldown : ℕ
  pub max_entries : ℕ

-- newSharePasswordLimiter: 5 failures, 15 minutes, 10,000 entries
unfoldable pub new_limiter : ℤ → ℤ → Limiter
new_limiter max_failures cooldown = record {
  attempts = [];
  max_failures = if not_positive max_failures then 5 else pos_part max_failures;
  cooldown = if not_positive cooldown then 900_000_000_000 else pos_part cooldown;
  max_entries = 10_000;
}

-- the digest that stands for a client and a token
unfoldable pub limiter_key : (Bytes → Bytes) → Bytes → Bytes → Bytes
limiter_key sum_hex token client = sum_hex (client ++ 0 ∷ token)

unfoldable pub find_attempt : Bytes → List Attempt → Option Attempt
find_attempt k [] = none
find_attempt k (a ∷ es) = if a.key == k then some a else find_attempt k es

unfoldable pub delete_attempt : Bytes → List Attempt → List Attempt
delete_attempt k [] = []
delete_attempt k (a ∷ es) = let rest = delete_attempt k es in if a.key == k then rest else a ∷ rest

-- the entry of a key, the zero attempt if there is none
abbrev pub attempt_or_zero : Bytes → Option Attempt → Attempt
attempt_or_zero k none = record { key = k; failures = 0; last_failure = 0; locked_until = 0 }
attempt_or_zero k (some a) = a

-- an entry that the first loop of cleanupLocked leaves
abbrev pub is_current : ℕ → ℕ → Attempt → Bool
is_current cooldown now a =
    not (not (eqb a.locked_until 0) && not (ltb now a.locked_until))
    && not (not (eqb a.last_failure 0) && ltb (cooldown * 3) (now - a.last_failure))

unfoldable pub drop_stale : ℕ → ℕ → List Attempt → List Attempt
drop_stale cooldown now [] = []
drop_stale cooldown now (a ∷ es) =
    let rest = drop_stale cooldown now es in if is_current cooldown now a then a ∷ rest else rest

-- the second loop, from an entry on
unfoldable pub oldest_from : Attempt → List Attempt → Attempt
oldest_from oldest [] = oldest
oldest_from oldest (a ∷ es) =
    oldest_from (if ltb a.last_failure oldest.last_failure then a else oldest) es

unfoldable pub delete_oldest : List Attempt → List Attempt
unfolding oldest_from delete_attempt
delete_oldest [] = []
delete_oldest (a ∷ es) = delete_attempt (oldest_from a es).key (a ∷ es)

-- cleanupLocked
unfoldable pub cleanup : ℕ → Limiter → Limiter
unfolding drop_stale delete_oldest
cleanup now l =
    let kept = drop_stale l.cooldown now l.attempts in
    record l { attempts = if ltb (length kept) l.max_entries then kept else delete_oldest kept }

-- the wait, whether the password may be checked, and the limiter
pub allow_found : ℕ → Bytes → Limiter → Option Attempt → (ℕ × Bool) × Limiter
allow_found now k l none = ((0, true), l)
allow_found now k l (some a) =
    if ltb now a.locked_until
    then ((a.locked_until - now, false), l)
    else if eqb a.locked_until 0
    then ((0, true), l)
    else ((0, true), record l { attempts = delete_attempt k l.attempts })

unfoldable pub allow : ℕ → Bytes → Limiter → (ℕ × Bool) × Limiter
unfolding cleanup find_attempt allow_found
allow now k l = let l' = cleanup now l in allow_found now k l' (find_attempt k l'.attempts)

abbrev pub set_attempt : Attempt → List Attempt → List Attempt
set_attempt a es = a ∷ delete_attempt a.key es

-- one more failure; the last that is allowed locks the key
pub failed_attempt : ℕ → Limiter → Attempt → Attempt
failed_attempt now l a =
    if leb l.max_failures (a.failures + 1)
    then record a { failures = 0; last_failure = now; locked_until = now + l.cooldown }
    else record a { failures = a.failures + 1; last_failure = now }

-- the wait and whether the key is now locked
unfoldable pub record_failure : ℕ → Bytes → Limiter → (ℕ × Bool) × Limiter
unfolding cleanup find_attempt failed_attempt
record_failure now k l =
    let l' = cleanup now l in
    let a = attempt_or_zero k (find_attempt k l'.attempts) in
    (
      if leb l.max_failures (a.failures + 1) then (l.cooldown, true) else (0, false),
      record l' { attempts = set_attempt (failed_attempt now l a) l'.attempts },
    )

unfoldable pub reset : Bytes → Limiter → Limiter
unfolding delete_attempt
reset k l = record l { attempts = delete_attempt k l.attempts }
