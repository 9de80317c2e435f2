-- ===== src/Lifecycle/Reaper/Collects.antt =====
-- What a session leaves in the temporary store is collected once the session is gone.
use fileupload.Lifecycle.Reaper.Removal.{
  groups-IsRemoved, called-Kept, delete_all-gone, IsRemoved, expired_among-Kept,
  expired_among-SameTemp, drop_group-Kept, get_session-Kept, call-Kept, call-SameTemp, SameTemp,
  Kept,
}
use fileupload.World.Inversion.{bind_after_ok}
use fileupload.Meta.Sessions.{live_session}
use fileupload.Domain.{ok, err, UploadSession, Result}
use fileupload.Upload.Isolation.{called}
use fileupload.World.Keeps.{Keeps-attempt, Keeps-if, Keeps-bind, Keeps-pure, keeps_rules, Keeps}
use fileupload.Upload.Delete.LastReference.{Answers}
use fileupload.Lifecycle.Reaper.Safety.{list_expired-answered, walk_paths_answered, IsClean}
use fileupload.Upload.Trash.{is_seen}
use fileupload.Store.Sessions.{get_session}
use fileupload.Storage.LocalFs.{temp_dir, object_at, delete_object}
use fileupload.Lifecycle.Reaper.{
  cleanup_sessions, after_scan, or_nothing, list_expired_sessions, cleanup_orphan_parts, reap,
  part_is, first_part, group_keys, group_of, cleanup_groups, drop_group, delete_all,
}
use fileupload.World.{pure, result, Exec, ignore, attempt, after, World, Object, ◌>>=◌}
use std.Path.{subst}
use fileupload.Base.{
  All-map, if◌then◌else◌, refl, Option-cases, ◌∙◌, eq_refl, sym, All-select, ap, [], eq→path, arith,
  inr, ◌==◌, ◌∷◌, map, is_empty, inl, Bool-cases, true, false, Option, some, none, ◌≡◌, All, List,
  Bytes,
}

seen-group_of :
    (sid q : Bytes) (ps : List Bytes)
    → first_part q ≡ some sid
    → is_seen q ps ≡ true
    → is_seen q (group_of sid ps) ≡ true
unfolding is_seen group_of
seen-group_of sid q [] e seen = seen
seen-group_of sid q (p ∷ ps) e seen = elim (Bool-cases (p == q)) [
  | inl same ↦ ground (arith, same, eq→path p q same, e, eq_refl sid)
  | inr other ↦ ground (arith, other, seen-group_of sid q ps e)
]

seen-group_keys :
    (sid q : Bytes) (ps : List Bytes)
    → first_part q ≡ some sid
    → is_seen q ps ≡ true
    → is_seen sid (group_keys ps) ≡ true
unfolding is_seen group_keys
seen-group_keys sid q [] e seen = seen
seen-group_keys sid q (p ∷ ps) e seen = elim (Bool-cases (p == q)) [
  | inl same ↦
      let first : first_part p ≡ some sid = ap first_part (eq→path p q same) ∙ e in
      rw first (ground (arith, eq_refl sid))
  | inr other ↦ elim (Option-cases (first_part p)) [
    | inl e' ↦ rw e' (seen-group_keys sid q ps e (ground (arith, other, seen)))
    | inr (x, e') ↦ rw e' (ground (arith, seen-group_keys sid q ps e, other, seen))
  ]
]

seen_path :
    (q c : Bytes) (os : List Object)
    → object_at q os ≡ some c
    → is_seen q (map (λ o. o.path) os) ≡ true
unfolding is_seen object_at
seen_path q c [] e = ground arith
seen_path q c (o ∷ os) e = ground (arith, seen_path q c os)

delete_all-ok : (ps : List Bytes) (w : World) → result (delete_all ps) w ≡ ok tt
unfolding delete_all
delete_all-ok [] w = refl
delete_all-ok (p ∷ ps) w = delete_all-ok ps (after (ignore (delete_object temp_dir p)) w)

drop_group-ok :
    (ps : List Bytes) (r : Result (Option UploadSession)) (w : World)
    → result (drop_group ps r) w ≡ ok tt
unfolding drop_group
drop_group-ok ps (err e) w = refl
drop_group-ok ps (ok (some s)) w = refl
drop_group-ok ps (ok none) w = delete_all-ok ps w

-- the loop's step for one key
abbrev drop_one : List Bytes → Bytes → Exec (Unit {0})
drop_one ps id =
    if is_empty id then pure tt else attempt (get_session id) >>= drop_group (group_of id ps)

drop_one-ok : (ps : List Bytes) (id : Bytes) (w : World) → result (drop_one ps id) w ≡ ok tt
drop_one-ok ps id w = elim (Bool-cases (is_empty id)) [
  | inl e ↦ rw e refl
  | inr e ↦
      rw e (drop_group-ok (group_of id ps) (result (get_session id) w) (after (get_session id) w))
]

drop_one-Kept : {v : World} (ps : List Bytes) (id : Bytes) → Keeps (Kept v) (drop_one ps id)
drop_one-Kept ps id = Keeps-if (is_empty id) _ _ (Keeps-pure tt) (
    Keeps-bind (attempt (get_session id)) _ (Keeps-attempt _ (get_session-Kept id))
      (drop_group-Kept (group_of id ps)))

module _ (sid q : Bytes) (v : World) (up : Answers v)
    (lost : live_session sid v.now v.redis.sessions ≡ none) (mine : first_part q ≡ some sid)
    (named : is_empty sid ≡ false) where
  own_group-gone :
      (w : World) (ps : List Bytes)
      → Kept v w
      → All IsClean ps
      → is_seen q ps ≡ true
      → IsRemoved q (after (attempt (get_session sid) >>= drop_group (group_of sid ps)) w)
  unfolding get_session drop_group group_of
  own_group-gone w ps k c seen =
      let answered : w.fails w.calls ≡ false = cc (k.faults, up w.calls) in
      let found : live_session sid w.now w.redis.sessions ≡ none = cc (k.keys, k.time, lost) in
      rw (answered, found, after)
        (delete_all-gone q v (called w) (group_of sid ps) up (called-Kept w k)
          (All-select IsClean (λ p. part_is sid (first_part p)) ps c)
          (seen-group_of sid q ps mine seen))

  groups-gone :
      (w : World) (ps ids : List Bytes)
      → Kept v w
      → All IsClean ps
      → is_seen q ps ≡ true
      → is_seen sid ids ≡ true
      → IsRemoved q (after (cleanup_groups ps ids) w)
  unfolding cleanup_groups is_seen
  groups-gone w ps [] k c seen there = absurd (ground arith)
  groups-gone w ps (id ∷ ids) k c seen there =
      let next =
        bind_after_ok (drop_one ps id) (λ _. cleanup_groups ps ids) w tt (drop_one-ok ps id w) in
      let w' = after (drop_one ps id) w in
      subst (λ (o : Result (Unit {0}) × World). IsRemoved q o.1) (sym next)
        (elim (Bool-cases (id == sid)) [
          | inl same ↦
              let e = eq→path id sid same in
              (groups-IsRemoved q ps ids c).from w' (
                subst (λ i. IsRemoved q (after (drop_one ps i) w)) (sym e)
                  (rw (named, after) (own_group-gone w ps k c seen)))
          | inr other ↦
              groups-gone w' ps ids ((drop_one-Kept ps id).from w k) c seen
                (ground (arith, other, there))
        ])

  parts-gone :
      (order : List Bytes → List Bytes) (w : World) (c : Bytes)
      → ((ids : List Bytes) → is_seen sid ids ≡ true → is_seen sid (order ids) ≡ true)
      → Kept v w
      → All (λ o. IsClean o.path) w.temp
      → object_at q w.temp ≡ some c
      → IsRemoved q (after (cleanup_orphan_parts order) w)
  unfolding cleanup_orphan_parts
  parts-gone order w c whole k clean there =
      let paths = map (λ o. o.path) w.temp in
      let seen = seen_path q c w.temp there in
      subst
        (λ (o : Result (List Bytes) × World).
          IsRemoved q
            (after (cleanup_groups (or_nothing o.0) (order (group_keys (or_nothing o.0)))) o.1))
        (sym (walk_paths_answered w (cc (k.faults, up w.calls))))
        (groups-gone (called w) paths (order (group_keys paths)) (called-Kept w k)
          (All-map IsClean (λ o. o.path) w.temp clean) seen
          (whole (group_keys paths) (seen-group_keys sid q paths mine seen)))

list_expired-Kept : {v : World} → Keeps (Kept v) list_expired_sessions
unfolding list_expired_sessions
list_expired-Kept = search (keeps_rules, call-Kept, expired_among-Kept)

list_expired-SameTemp : {os : List Object} → Keeps (SameTemp os) list_expired_sessions
unfolding list_expired_sessions
list_expired-SameTemp = search (keeps_rules, call-SameTemp, expired_among-SameTemp)

-- Where no backend call fails, one round of the reaper removes from the temporary store every chunk
-- whose session has run out or was never there, where the paths in that store are clean and the order in
-- which it goes through the groups leaves none out.
pub reap_collects :
    (order : List Bytes → List Bytes) (sid q c : Bytes) (w : World)
    → Answers w
    → live_session sid w.now w.redis.sessions ≡ none
    → first_part q ≡ some sid
    → is_empty sid ≡ false
    → ((ids : List Bytes) → is_seen sid ids ≡ true → is_seen sid (order ids) ≡ true)
    → All (λ o. IsClean o.path) w.temp
    → object_at q w.temp ≡ some c
    → object_at q (after (reap order) w).temp ≡ none
unfolding reap after_scan cleanup_sessions
reap_collects order sid q c w up lost mine named whole clean there =
    let w' = after list_expired_sessions w in
    let same = list_expired-SameTemp.from w (record { temp = refl }) in
    rw (list_expired-answered w (up w.calls), after)
      (parts-gone sid q w up lost mine named order w' c whole
        (list_expired-Kept.from w (record { keys = refl; time = refl; faults = refl }))
        (subst (All (λ o. IsClean o.path)) (sym same.temp) clean)
        (subst (λ os. object_at q os ≡ some c) (sym same.temp) there))
