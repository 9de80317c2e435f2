-- ===== src/Share/Downloads.antt =====
-- The downloads of a share against its limit, in any interleaving of the requests.
use fileupload.World.Keeps.{keeps_rules, Keeps}
use fileupload.Domain.{DomainError, share_exhausted, backend, err, ok, ShareEntry, Result}
use fileupload.Share.{
  check_share, get_share, has_download, row_affected, authorize, try_consume_download,
  count_download, find_share, consume_download,
}
use fileupload.Base.{
  inr, inl, Bool-cases, ◌≤◌, false, true, refl, [], ◌+◌, ◌∷◌, none, ◌≡◌, if◌then◌else◌, List, some,
  Bool, ℕ, Bytes, Option, arith,
}
use fileupload.World.{require, World, after, result}

-- the row of a share, with its limit and the downloads so far
abbrev limit_of : Option ShareEntry → ℕ
limit_of none = 0
limit_of (some s) = s.max_downloads

abbrev taken_of : Option ShareEntry → ℕ
taken_of none = 0
taken_of (some s) = s.cur_downloads

abbrev pub limit : Bytes → World → ℕ
limit token w = limit_of (find_share token w.db.shares)

abbrev pub taken : Bytes → World → ℕ
taken token w = taken_of (find_share token w.db.shares)

counted : Option ShareEntry → Option ShareEntry
counted none = none
counted (some s) =
    some (if has_download s then record s { cur_downloads = s.cur_downloads + 1 } else s)

find-count_download :
    (token : Bytes) (ss : List ShareEntry)
    → find_share token (count_download token ss) ≡ counted (find_share token ss)
unfolding find_share count_download counted
find-count_download token [] = refl
find-count_download token (s ∷ ss) = ground (arith, find-count_download token ss)

-- What one request does at a time: it checks the share, with a password or with a cookie, or it
-- takes a download.
pub data Step : Type 0 where
  checks : Bytes → Bool → Step
  takes : Step

abbrev succeeded : {A : Type 0} → Result A → ℕ
succeeded (ok a) = 1
succeeded (err e) = 0

module _ (password_matches : Bytes → Bytes → Bool) (token : Bytes) where
  -- the downloads that a step lets through, and the world that it leaves
  abbrev pub step : Step → World → ℕ × World
  step (checks password verified) w =
      (0, after (authorize password_matches token password verified) w)
  step takes w = (succeeded (result (consume_download token) w), after (consume_download token) w)

  abbrev pub steps : List Step → World → ℕ × World
  steps [] w = (0, w)
  steps (s ∷ ss) w = let (n, w') = step s w in let (m, w'') = steps ss w' in (n + m, w'')

-- the table of shares is the same
abbrev Same : List ShareEntry → World → Type 0
Same ss w = w.db.shares ≡ ss

get_share-Same : (ss : List ShareEntry) (token : Bytes) → Keeps (Same ss) (get_share token)
unfolding get_share
get_share-Same ss token = record { from = λ w h. ground arith }

check_share-Same :
    (ss : List ShareEntry) (password_matches : Bytes → Bytes → Bool) (now : ℕ) (password : Bytes)
    (verified : Bool) (found : Option ShareEntry)
    → Keeps (Same ss) (check_share password_matches now password verified found)
unfolding check_share
check_share-Same ss password_matches now password verified none = search keeps_rules
check_share-Same ss password_matches now password verified (some s) = search keeps_rules

authorize-Same :
    (ss : List ShareEntry) (password_matches : Bytes → Bytes → Bool) (token password : Bytes)
    (verified : Bool)
    → Keeps (Same ss) (authorize password_matches token password verified)
unfolding authorize
authorize-Same ss password_matches token password verified =
    search (keeps_rules, get_share-Same, check_share-Same)

consume_failed :
    (token : Bytes) (w : World)
    → w.fails w.calls ≡ true
    → consume_download token w ≡ (err backend, record w { calls = w.calls + 1 })
unfolding consume_download try_consume_download
consume_failed token w h = rw h

-- the table with one more download of the share, if it has one
abbrev downloaded : Bytes → World → World
downloaded token w = record w {
  db = record w.db { shares = count_download token w.db.shares };
  calls = w.calls + 1;
}

consume_answered :
    (token : Bytes) (w : World)
    → w.fails w.calls ≡ false
    → consume_download token w
      ≡ require (row_affected (find_share token w.db.shares)) share_exhausted (downloaded token w)
unfolding consume_download try_consume_download
consume_answered token w h = rw h

counted-taken :
    (o : Option ShareEntry) (w : World)
    → taken_of (counted o)
      ≡ taken_of o + succeeded (result (require (row_affected o) share_exhausted) w)
unfolding counted row_affected
counted-taken none w = ground arith
counted-taken (some s) w = ground arith

counted-limit : (o : Option ShareEntry) → limit_of (counted o) ≡ limit_of o
unfolding counted
counted-limit none = refl
counted-limit (some s) = ground arith

counted-within :
    (o : Option ShareEntry)
    → 1 ≤ limit_of o
    → taken_of o ≤ limit_of o
    → taken_of (counted o) ≤ limit_of o
unfolding counted
counted-within none l h = h
counted-within (some s) l h = ground arith

require-after : (b : Bool) (e : DomainError) (w : World) → after (require b e) w ≡ w
require-after true e w = refl
require-after false e w = refl

-- A download is counted exactly if it is let through, and the count does not pass the limit.
consume-taken :
    (token : Bytes) (w : World)
    → 1 ≤ limit token w
    → taken token w ≤ limit token w
    → (taken token (after (consume_download token) w)
        ≡ taken token w + succeeded (result (consume_download token) w))
      × (limit token (after (consume_download token) w) ≡ limit token w)
      × (taken token (after (consume_download token) w) ≤ limit token w)
consume-taken token w l h = elim (Bool-cases (w.fails w.calls)) [
  | inl down ↦ ground (arith, consume_failed token w down)
  | inr up ↦
      let o = find_share token w.db.shares in
      ground (
        arith,
        consume_answered token w up,
        find-count_download token w.db.shares,
        require-after (row_affected o) share_exhausted (downloaded token w),
        counted-taken o (downloaded token w),
        counted-limit o,
        counted-within o l h,
      )
]

module _ (password_matches : Bytes → Bytes → Bool) (token : Bytes) where
  step-taken :
      (s : Step) (w : World)
      → 1 ≤ limit token w
      → taken token w ≤ limit token w
      → let r = step password_matches token s w in
        (taken token r.1 ≡ taken token w + r.0)
        × (limit token r.1 ≡ limit token w)
        × (taken token r.1 ≤ limit token w)
  step-taken (checks password verified) w l h =
      ground
        (arith, (authorize-Same w.db.shares password_matches token password verified).from w refl)
  step-taken takes w l h = consume-taken token w l h

  -- However the requests for a share with a limit are interleaved, whatever passwords they show
  -- and whichever calls of the database fail, the downloads that are let through are those by
  -- which the count grows, and the count does not pass the limit, if it has not passed it at the
  -- start.
  pub downloads_bounded :
      (ss : List Step) (w : World)
      → 1 ≤ limit token w
      → taken token w ≤ limit token w
      → let r = steps password_matches token ss w in
        (taken token w + r.0 ≡ taken token r.1) × (taken token r.1 ≤ limit token w)
  downloads_bounded [] w l h = (ground arith, h)
  downloads_bounded (s ∷ ss) w l h =
      let one = step-taken s w l h in
      let rest =
        downloads_bounded ss (step password_matches token s w).1 (ground (arith, one))
          (ground (arith, one)) in
      (ground (arith, one, rest), ground (arith, one, rest))
