-- ===== src/Lifecycle/Reaper/Safety.antt =====
-- A chunk of a session that is there survives the reaper.
use fileupload.Upload.Isolation.{called}
use fileupload.Domain.{backend, err, ok}
use fileupload.World.Keeps.{Keeps}
use fileupload.Lifecycle.Reaper.{
  if_expired, walk_paths, part_is, first_part, list_expired_sessions, expired_among, group_of,
}
use fileupload.Storage.Paths.{resolve}
use fileupload.Storage.LocalFs.{object_at}
use fileupload.World.{SessionKey, result, World}
use fileupload.Base.{
  All-selected, map, eq→path, select, ap, refl, All-select_cons, true, some, ◌⊎◌, ltb, ℕ, ◌∙◌, inr,
  [], inl, Bool-cases, eq_iff, ◌∷◌, false, arith, ◌==◌, All, ◌≡◌, Option, List, Bytes,
}

-- the path stands for itself, as those do that Write leaves
abbrev pub IsClean : Bytes → Type 0
IsClean p = resolve p ≡ ok p

-- what the reaper leaves alone while the chunk `q` has the content `c`
record Guarded (q : Bytes) (c : Option Bytes) (v w : World) : Type 0 where
  chunk : object_at q w.temp ≡ c
  tables : w.db ≡ v.db
  keys : w.redis ≡ v.redis
  time : w.now ≡ v.now
  clean : All (λ o. IsClean o.path) w.temp

-- a path of another group is another path
pub group-apart :
    (sid id q : Bytes) (ps : List Bytes)
    → first_part q ≡ some sid
    → (id == sid) ≡ false
    → All IsClean ps
    → All (λ p. IsClean p × ((p == q) ≡ false)) (group_of id ps)
unfolding group_of
group-apart sid id q [] e apart h = tt
group-apart sid id q (p ∷ ps) e apart h =
    All-select_cons (λ p'. IsClean p' × ((p' == q) ≡ false)) (λ p'. part_is id (first_part p')) p ps
      (λ mine. (
        h.0,
        elim (Bool-cases (p == q)) [
          | inl same ↦
              let first : first_part p ≡ some sid = ap first_part (eq→path p q same) ∙ e in
              ground (arith, mine, first, eq_iff sid id, eq_iff id sid, apart)
          | inr other ↦ other
        ],
      ))
      (group-apart sid id q ps e apart h.1)

-- the keys that SCAN finds have not run out, so none of them is listed
expired_among-none :
    (n : ℕ) (ks : List SessionKey) (w : World)
    → w.now ≡ n
    → All (λ k. ltb n k.deadline ≡ true) ks
    → result (expired_among ks) w ≡ ok []
unfolding expired_among
expired_among-none n [] w e h = refl
expired_among-none n (k ∷ ks) w e h =
    let rest = expired_among-none n ks (called w) e h.1 in
    elim (Bool-cases (w.fails w.calls)) [
      | inl down ↦ rw (down, result, rest) (unfold if_expired in refl)
      | inr up ↦ rw (up, result, rest) (ground (arith, e, h.0))
    ]

pub list_expired-answered :
    (w : World) → w.fails w.calls ≡ false → result list_expired_sessions w ≡ ok []
unfolding list_expired_sessions
list_expired-answered w up =
    rw (up, result)
      (expired_among-none w.now (select (λ k. ltb w.now k.deadline) w.redis.sessions) (called w)
        refl (All-selected (λ k. ltb w.now k.deadline) w.redis.sessions))

pub list_expired-none :
    (w : World)
    → (result list_expired_sessions w ≡ ok []) ⊎ (result list_expired_sessions w ≡ err backend)
unfolding list_expired_sessions
list_expired-none w = elim (Bool-cases (w.fails w.calls)) [
  | inl down ↦ inr (rw (down, result) refl)
  | inr up ↦ inl (list_expired-answered w up)
]

pub walk_paths_failed :
    (w : World) → w.fails w.calls ≡ true → walk_paths w ≡ (err backend, called w)
unfolding walk_paths
walk_paths_failed w down = rw down refl

pub walk_paths_answered :
    (w : World) → w.fails w.calls ≡ false → walk_paths w ≡ (ok (map (λ o. o.path) w.temp), called w)
unfolding walk_paths
walk_paths_answered w up = rw up refl
