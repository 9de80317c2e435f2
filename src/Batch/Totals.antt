-- ===== src/Batch/Totals.antt =====
-- BatchDelete answers for each of its files.
use fileupload.Upload.Trees.Ends.{trash_tree-Avoids, Ranked, IsRanked}
use fileupload.Upload.Trees.Bin.{trash_now, trash}
use fileupload.Upload.Delete.{owned}
use fileupload.Meta.Files.{live_file}
use fileupload.World.Avoids.{Avoids}
use fileupload.Upload.Delete.References.{live_file-id, get_file-answered, get_file-failed}
use fileupload.Store.{get_file}
use fileupload.Batch.{found_in, batch_delete, tally, BatchResult, delete_each}
use fileupload.Domain.{returns, out_of_fuel, not_found, err, ok, Result}
use fileupload.World.{result, after, World}
use std.Path.{subst}
use fileupload.Base.{
  sym, ◌==◌, Option-cases, true, All, ◌≢◌, ◌<◌, suc, refl, inr, [], inl, ◌∷◌, Bool-cases, arith,
  length, ◌+◌, ◌≡◌, ℕ, List, Bytes,
}

-- what a run of the loop gives
record Tallies (n : ℕ) (o : Result BatchResult × World) : Type 0 where
  total : BatchResult
  value : o.0 ≡ ok total
  sum : total.success + total.failed ≡ n

tally-sum :
    (r : Result (Unit {0})) (b : BatchResult)
    → (tally r b).success + (tally r b).failed ≡ b.success + b.failed + 1
tally-sum (ok u) b = omega arith
tally-sum (err e) b = omega arith

returns-other : (r : Result (Unit {0})) → r ≢ err out_of_fuel → returns r ≡ true
returns-other r h = ground (arith, h)

module _ (rank : Bytes → ℕ) (fuel : ℕ) (ns : Bytes) where
  trash-Avoids : (id : Bytes) → rank id < fuel → Avoids out_of_fuel (Ranked rank) (trash fuel id ns)
  unfolding trash owned trash_now
  trash-Avoids id enough = record {
    from = λ w h. elim (Bool-cases (w.fails w.calls)) [
      | inl down ↦ rw (get_file-failed id w down) (record { safe = λ e. cc; kept = h })
      | inr up ↦ elim (Option-cases (live_file id w.db.files)) [
        | inl absent ↦ rw (get_file-answered id w up, absent) (record { safe = λ e. cc; kept = h })
        | inr (f, there) ↦ elim (Bool-cases (f.namespace == ns)) [
          | inl mine ↦
              rw (get_file-answered id w up, there, mine)
                ((trash_tree-Avoids rank fuel w.now f (
                    subst (λ i. rank i < fuel) (sym (live_file-id id w.db.files f there))
                      enough)).from
                  (record w { calls = w.calls + 1 }) h)
          | inr other ↦
              rw (get_file-answered id w up, there, other) (record { safe = λ e. cc; kept = h })
        ]
      ]
    ];
  }

  get_file-Ranked : (id : Bytes) (w : World) → Ranked rank w → Ranked rank (after (get_file id) w)
  get_file-Ranked id w h = elim (Bool-cases (w.fails w.calls)) [
    | inl down ↦ rw (get_file-failed id w down, after) h
    | inr up ↦ rw (get_file-answered id w up, after) h
  ]

  delete_each-Tallies :
      (ids : List Bytes) (b : BatchResult) (w : World)
      → All (λ id. rank id < fuel) ids
      → Ranked rank w
      → Tallies (b.success + b.failed + length ids) (delete_each fuel ns ids b w)
  unfolding delete_each
  delete_each-Tallies [] b w enough h = record { total = b; value = refl; sum = omega arith }
  delete_each-Tallies (id ∷ ids) b w enough h =
      let v = after (get_file id) w in
      let hv = get_file-Ranked id w h in
      let goes_on : (t : Result (Unit {0})) (u : World)
          → Ranked rank u
          → Tallies (b.success + b.failed + suc (length ids))
              (delete_each fuel ns ids (tally t b) u) =
        λ t u hu.
          subst (λ n. Tallies n (delete_each fuel ns ids (tally t b) u))
            (omega (arith, tally-sum t b)) (delete_each-Tallies ids (tally t b) u enough.1 hu) in
      elim (Bool-cases (found_in ns (result (get_file id) w))) [
        | inl mine ↦
            let gone = (trash-Avoids id enough.0).from v hv in
            rw (mine, returns-other (result (trash fuel id ns) v) gone.safe)
              (goes_on (result (trash fuel id ns) v) (after (trash fuel id ns) v) gone.kept)
        | inr other ↦ rw other (goes_on (err not_found) v hv)
      ]

-- If the files can be ranked such that each is below its directory, then BatchDelete returns, whichever
-- backend calls fail: fuel above the ranks of its identifiers does not run out. It counts each of the
-- identifiers as deleted or as failed.
pub batch_delete_total :
    (rank : Bytes → ℕ) (fuel : ℕ) (ids : List Bytes) (ns : Bytes) (w : World)
    → All (IsRanked rank) w.db.files
    → All (λ id. rank id < fuel) ids
    → (r : BatchResult) × (result (batch_delete fuel ids ns) w ≡ ok r)
      × (r.success + r.failed ≡ length ids)
unfolding batch_delete
batch_delete_total rank fuel ids ns w h enough =
    let t = delete_each-Tallies rank fuel ns ids (record { success = 0; failed = 0 }) w enough h in
    (t.total, t.value, omega (arith, t.sum))
