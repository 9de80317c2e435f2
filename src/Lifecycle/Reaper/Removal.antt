-- ===== src/Lifecycle/Reaper/Removal.antt =====
-- What the removal of chunks does to the rest of the state, and to the chunk.
use fileupload.Storage.Objects.{object_at-remove_object}
use fileupload.Domain.{ok, err, UploadSession, Result}
use fileupload.Upload.Isolation.{called}
use fileupload.World.Keeps.{
  Keeps-gets, Keeps-ignore, Keeps-attempt, Keeps-if, Keeps-bind, Keeps-pure, keeps_rules, Keeps,
}
use fileupload.Upload.Delete.LastReference.{Answers}
use fileupload.Lifecycle.Reaper.Safety.{IsClean}
use fileupload.Upload.Trash.{is_seen}
use fileupload.Store.Sessions.{get_session}
use fileupload.Storage.LocalFs.{temp_dir, set_objects, object_at, delete_object}
use fileupload.Lifecycle.Reaper.{
  if_expired, part_is, first_part, group_of, cleanup_groups, expired_among, drop_group, delete_all,
}
use fileupload.World.{gets, ignore, attempt, after, backend_call, SessionKey, World, Object}
use std.Path.{subst}
use fileupload.Base.{
  eq_refl, sym, All-select, [], eq→path, arith, inr, ◌==◌, ◌∷◌, is_empty, inl, Bool-cases, true,
  false, Option, some, none, ◌≡◌, All, List, Bytes,
}

-- what the round needs of the state it started from
pub record Kept (v w : World) : Type 0 where
  pub keys : w.redis ≡ v.redis
  pub time : w.now ≡ v.now
  pub faults : w.fails ≡ v.fails

abbrev pub IsRemoved : Bytes → World → Type 0
IsRemoved q w = object_at q w.temp ≡ none

module _ {v : World} where
  pub called-Kept : (w : World) → Kept v w → Kept v (called w)
  called-Kept w h = record { keys = h.keys; time = h.time; faults = h.faults }

  pub call-Kept : Keeps (Kept v) backend_call
  call-Kept = record {
    from = λ w h. elim (Bool-cases (w.fails w.calls)) [
      | inl down ↦ rw (down, after) (called-Kept w h)
      | inr up ↦ rw (up, after) (called-Kept w h)
    ];
  }

  set_temp-Kept : (os : List Object) → Keeps (Kept v) (set_objects temp_dir os)
  set_temp-Kept os = record {
    from = λ w h. record { keys = h.keys; time = h.time; faults = h.faults };
  }

  delete_object-Kept : (p : Bytes) → Keeps (Kept v) (delete_object temp_dir p)
  unfolding delete_object
  delete_object-Kept p = search (keeps_rules, call-Kept, set_temp-Kept)

  delete_all-Kept : (ps : List Bytes) → Keeps (Kept v) (delete_all ps)
  unfolding delete_all
  delete_all-Kept [] = Keeps-pure tt
  delete_all-Kept (p ∷ ps) =
      Keeps-bind (ignore (delete_object temp_dir p)) _ (Keeps-ignore _ (delete_object-Kept p))
        (λ _. delete_all-Kept ps)

  pub drop_group-Kept :
      (ps : List Bytes) (r : Result (Option UploadSession)) → Keeps (Kept v) (drop_group ps r)
  unfolding drop_group
  drop_group-Kept ps (err e) = Keeps-pure tt
  drop_group-Kept ps (ok (some s)) = Keeps-pure tt
  drop_group-Kept ps (ok none) = delete_all-Kept ps

  pub get_session-Kept : (id : Bytes) → Keeps (Kept v) (get_session id)
  unfolding get_session
  get_session-Kept id = search (keeps_rules, call-Kept)

  pub expired_among-Kept : (ks : List SessionKey) → Keeps (Kept v) (expired_among ks)
  unfolding expired_among
  expired_among-Kept [] = Keeps-pure []
  expired_among-Kept (k ∷ ks) = Keeps-bind (attempt backend_call) _ (Keeps-attempt _ call-Kept) λ r.
      Keeps-bind (gets (λ w. w.now)) _ (Keeps-gets (λ w. w.now)) λ now.
        Keeps-bind (expired_among ks) _ (expired_among-Kept ks)
          λ rest. Keeps-pure (if_expired k r now rest)

-- the temporary store is left alone
pub record SameTemp (os : List Object) (w : World) : Type 0 where
  pub temp : w.temp ≡ os

pub call-SameTemp : {os : List Object} → Keeps (SameTemp os) backend_call
call-SameTemp = record {
  from = λ w h. elim (Bool-cases (w.fails w.calls)) [
    | inl down ↦ rw (down, after) (record { temp = h.temp })
    | inr up ↦ rw (up, after) (record { temp = h.temp })
  ];
}

pub expired_among-SameTemp :
    {os : List Object} (ks : List SessionKey) → Keeps (SameTemp os) (expired_among ks)
unfolding expired_among
expired_among-SameTemp [] = Keeps-pure []
expired_among-SameTemp (k ∷ ks) =
    Keeps-bind (attempt backend_call) _ (Keeps-attempt _ call-SameTemp) λ r.
      Keeps-bind (gets (λ w. w.now)) _ (Keeps-gets (λ w. w.now)) λ now.
        Keeps-bind (expired_among ks) _ (expired_among-SameTemp ks)
          λ rest. Keeps-pure (if_expired k r now rest)

module _ (q : Bytes) where
  -- what is gone stays gone
  delete_object-IsRemoved : (p : Bytes) → IsClean p → Keeps (IsRemoved q) (delete_object temp_dir p)
  unfolding delete_object
  delete_object-IsRemoved p clean = record {
    from = λ w h. elim (Bool-cases (w.fails w.calls)) [
      | inl down ↦ rw (clean, down, after) h
      | inr up ↦ rw (clean, up, after) (ground (arith, object_at-remove_object p q w.temp, h))
    ];
  }

  delete_all-IsRemoved : (ps : List Bytes) → All IsClean ps → Keeps (IsRemoved q) (delete_all ps)
  unfolding delete_all
  delete_all-IsRemoved [] c = Keeps-pure tt
  delete_all-IsRemoved (p ∷ ps) c =
      Keeps-bind (ignore (delete_object temp_dir p)) _
        (Keeps-ignore _ (delete_object-IsRemoved p c.0)) (λ _. delete_all-IsRemoved ps c.1)

  drop_group-IsRemoved :
      (ps : List Bytes) (r : Result (Option UploadSession))
      → All IsClean ps
      → Keeps (IsRemoved q) (drop_group ps r)
  unfolding drop_group
  drop_group-IsRemoved ps (err e) c = Keeps-pure tt
  drop_group-IsRemoved ps (ok (some s)) c = Keeps-pure tt
  drop_group-IsRemoved ps (ok none) c = delete_all-IsRemoved ps c

  get_session-IsRemoved : (id : Bytes) → Keeps (IsRemoved q) (get_session id)
  unfolding get_session
  get_session-IsRemoved id = record {
    from = λ w h. elim (Bool-cases (w.fails w.calls)) [
      | inl down ↦ rw (down, after) h
      | inr up ↦ rw (up, after) h
    ];
  }

  pub groups-IsRemoved :
      (ps ids : List Bytes) → All IsClean ps → Keeps (IsRemoved q) (cleanup_groups ps ids)
  unfolding cleanup_groups group_of
  groups-IsRemoved ps [] c = Keeps-pure tt
  groups-IsRemoved ps (id ∷ ids) c =
      Keeps-bind _ _
        (Keeps-if (is_empty id) _ _ (Keeps-pure tt) (
          Keeps-bind (attempt (get_session id)) _ (Keeps-attempt _ (get_session-IsRemoved id)) (λ r.
            drop_group-IsRemoved (group_of id ps) r
              (All-select IsClean (λ p. part_is id (first_part p)) ps c))))
        (λ _. groups-IsRemoved ps ids c)

  -- a deletion that is answered
  delete_object-gone :
      (w : World)
      → IsClean q
      → w.fails w.calls ≡ false
      → IsRemoved q (after (delete_object temp_dir q) w)
  unfolding delete_object
  delete_object-gone w clean up =
      rw (clean, up, after) (ground (arith, object_at-remove_object q q w.temp, eq_refl q))

  pub delete_all-gone :
      (v w : World) (ps : List Bytes)
      → Answers v
      → Kept v w
      → All IsClean ps
      → is_seen q ps ≡ true
      → IsRemoved q (after (delete_all ps) w)
  unfolding delete_all is_seen
  delete_all-gone v w [] up k c seen = absurd (ground arith)
  delete_all-gone v w (p ∷ ps) up k c seen = elim (Bool-cases (p == q)) [
    | inl same ↦
        let e = eq→path p q same in
        let first =
          delete_object-gone w (subst IsClean e c.0)
            (let f : w.fails w.calls ≡ false = cc (k.faults, up w.calls) in f) in
        (delete_all-IsRemoved ps c.1).from (after (delete_object temp_dir p) w)
          (subst (λ r. IsRemoved q (after (delete_object temp_dir r) w)) (sym e) first)
    | inr other ↦
        delete_all-gone v (after (delete_object temp_dir p) w) ps up
          ((delete_object-Kept p).from w k) c.1 (ground (arith, other, seen))
  ]
