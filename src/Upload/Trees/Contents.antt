-- ===== src/Upload/Trees/Contents.antt =====
-- A deletion that fails takes no content with it.
use fileupload.Storage.LocalFs.{data_dir, delete_object}
use fileupload.World.Inversion.{bind_after_err, bind_after_ok, Result-cases}
use fileupload.World.Keeps.{
  Keeps-pure, Keeps-raise, Keeps-attempt, Keeps-if, Keeps-bind, Keeps, keeps_rules,
}
use fileupload.Store.{
  set_files, get_blob_by_sha, incr_blob_ref, decr_blob_ref, put_file, delete_file, list_children,
}
use fileupload.Upload.Delete.{
  push, undo_decr_ref, undo_delete_file, Undo, Log, roll_back_one, after_decr, delete_file_deferred,
  roll_back, after_delete,
}
use fileupload.Domain.{err, ok, DomainError, FileMetadata, Result}
use fileupload.Upload.Trees.Erase.{
  go_on, defer_dir, defer_children, defer_own_row, defer_listed, finish_dir, delete_dir_deferred,
  try_paths,
}
use fileupload.World.{pure, raise, ignore, attempt, after, Exec, result, World, Object}
use fileupload.Base.{
  sym, ap, ◌∙◌, zero, inr, refl, inl, ◌==◌, [], if◌then◌else◌, arith, suc, ◌∷◌, ◌≡◌, ℕ, List, Bytes,
}

-- the store of contents is as it was
abbrev Stored : List Object → World → Type 0
Stored d w = w.disk ≡ d

module _ {d : List Object} where
  list_children-Stored : (id : Bytes) → Keeps (Stored d) (list_children id)
  unfolding list_children
  list_children-Stored id = record { from = λ w h. ground arith }

  delete_file-Stored : (id : Bytes) → Keeps (Stored d) (delete_file id)
  unfolding delete_file
  delete_file-Stored id = record { from = λ w h. ground arith }

  decr_blob_ref-Stored : (sha : Bytes) → Keeps (Stored d) (decr_blob_ref sha)
  unfolding decr_blob_ref
  decr_blob_ref-Stored sha = record { from = λ w h. ground arith }

  incr_blob_ref-Stored : (sha : Bytes) → Keeps (Stored d) (incr_blob_ref sha)
  unfolding incr_blob_ref
  incr_blob_ref-Stored sha = record { from = λ w h. ground arith }

  get_blob-Stored : (sha : Bytes) → Keeps (Stored d) (get_blob_by_sha sha)
  unfolding get_blob_by_sha
  get_blob-Stored sha = record { from = λ w h. ground arith }

  put_file-Stored : (f : FileMetadata) → Keeps (Stored d) (put_file f)
  unfolding put_file set_files
  put_file-Stored f = record { from = λ w h. ground arith }

  ruleset stored_rules = (
    keeps_rules, list_children-Stored, delete_file-Stored, decr_blob_ref-Stored,
    incr_blob_ref-Stored, get_blob-Stored, put_file-Stored,
  )

  after_decr-Stored :
      (sha : Bytes) (log : Log) (r : Result ℕ) → Keeps (Stored d) (after_decr sha log r)
  unfolding after_decr
  after_decr-Stored sha log (ok n) = search stored_rules
  after_decr-Stored sha log (err e) = search stored_rules

  after_delete-Stored :
      (f : FileMetadata) (log : Log) (r : Result (Unit {0}))
      → Keeps (Stored d) (after_delete f log r)
  unfolding after_delete
  after_delete-Stored f log (ok u) = search (stored_rules, after_decr-Stored)
  after_delete-Stored f log (err e) = search stored_rules

  defer_file-Stored : (f : FileMetadata) (log : Log) → Keeps (Stored d) (delete_file_deferred f log)
  unfolding delete_file_deferred
  defer_file-Stored f log = search (stored_rules, after_delete-Stored)

  roll_back_one-Stored : (u : Undo) → Keeps (Stored d) (roll_back_one u)
  unfolding roll_back_one
  roll_back_one-Stored (undo_delete_file f) = search stored_rules
  roll_back_one-Stored (undo_decr_ref sha) = search stored_rules

  roll_back-Stored : (us : List Undo) → Keeps (Stored d) (roll_back us)
  unfolding roll_back
  roll_back-Stored [] = search stored_rules
  roll_back-Stored (u ∷ us) =
      Keeps-bind (roll_back_one u) _ (roll_back_one-Stored u) (λ _. roll_back-Stored us)

  go_on-Stored :
      (r : Result (Unit {0}) × Log) (next : Log → Exec (Result (Unit {0}) × Log))
      → ((log : Log) → Keeps (Stored d) (next log))
      → Keeps (Stored d) (go_on r next)
  go_on-Stored (ok u, log) next k = k log
  go_on-Stored (err e, log) next k = search stored_rules

  defer_children-Stored :
      (go : FileMetadata → Log → Exec (Result (Unit {0}) × Log)) (cs : List FileMetadata)
      (log : Log)
      → ((c : FileMetadata) (l : Log) → Keeps (Stored d) (go c l))
      → Keeps (Stored d) (defer_children go cs log)
  unfolding defer_children
  defer_children-Stored go [] log k = search stored_rules
  defer_children-Stored go (c ∷ cs) log k =
      Keeps-bind (if c.is_dir then go c log else delete_file_deferred c log) _
        (Keeps-if c.is_dir _ _ (k c log) (defer_file-Stored c log))
        (λ r. go_on-Stored r (defer_children go cs) (λ l. defer_children-Stored go cs l k))

  own_row-Stored : (f : FileMetadata) (log : Log) → Keeps (Stored d) (defer_own_row f log)
  unfolding defer_own_row
  own_row-Stored f log =
      Keeps-bind (attempt (delete_file f.file_id)) _
        (Keeps-attempt _ (delete_file-Stored f.file_id))
        λ r.
          elim r
            as (λ r'. Keeps (Stored d) (elim r' [
              | err e ↦ pure (err e, log)
              | ok _ ↦ pure (ok tt, push (undo_delete_file f) log)
            ])) [ ok u ↦ Keeps-pure _ | err e ↦ Keeps-pure _ ]

  listed-Stored :
      (go : FileMetadata → Log → Exec (Result (Unit {0}) × Log)) (f : FileMetadata) (log : Log)
      (r : Result (List FileMetadata))
      → ((c : FileMetadata) (l : Log) → Keeps (Stored d) (go c l))
      → Keeps (Stored d) (defer_listed go f log r)
  unfolding defer_listed
  listed-Stored go f log (err e) k = search stored_rules
  listed-Stored go f log (ok cs) k =
      Keeps-bind (defer_children go cs log) _ (defer_children-Stored go cs log k)
        (λ r. go_on-Stored r (defer_own_row f) (own_row-Stored f))

  defer_dir-Stored :
      (fuel : ℕ) (ns : Bytes) (f : FileMetadata) (log : Log)
      → Keeps (Stored d) (defer_dir fuel ns f log)
  unfolding defer_dir
  defer_dir-Stored zero ns f log = search stored_rules
  defer_dir-Stored (suc fuel) ns f log =
      Keeps-if (f.namespace == ns) _ _
        (Keeps-bind (attempt (list_children f.file_id)) _
          (Keeps-attempt _ (list_children-Stored f.file_id))
          (λ cs. listed-Stored (defer_dir fuel ns) f log cs (defer_dir-Stored fuel ns)))
        (Keeps-pure _)

try_paths-ok : (ps : List Bytes) (w : World) → result (try_paths ps) w ≡ ok tt
unfolding try_paths
try_paths-ok [] w = refl
try_paths-ok (p ∷ ps) w = try_paths-ok ps (after (ignore (delete_object data_dir p)) w)

finish_dir-Stored :
    (r : Result (Unit {0})) (log : Log) (w : World) (e : DomainError)
    → result (finish_dir r log) w ≡ err e
    → (after (finish_dir r log) w).disk ≡ w.disk
unfolding finish_dir
finish_dir-Stored (err x) log w e h =
    (Keeps-bind (roll_back log.undo) (λ _. raise {A = Unit {0}} x) (roll_back-Stored log.undo)
        (λ _. Keeps-raise x)).from
      w refl
finish_dir-Stored (ok u) log w e h = cc (try_paths-ok log.pending w, h)

-- Where the deletion of a directory that is purged fails, at whatever backend call, the store of
-- contents is as it was.
pub delete_dir_deferred-disk :
    (fuel : ℕ) (ns : Bytes) (d : FileMetadata) (w : World) (e : DomainError)
    → result (delete_dir_deferred fuel ns d) w ≡ err e
    → (after (delete_dir_deferred fuel ns d) w).disk ≡ w.disk
unfolding delete_dir_deferred
delete_dir_deferred-disk fuel ns d w e h =
    let start : Log = record { undo = []; pending = [] } in
    let kept = (defer_dir-Stored fuel ns d start).from w refl in
    elim (Result-cases (result (defer_dir fuel ns d start) w)) [
      | inl (a, done) ↦
          let run = bind_after_ok (defer_dir fuel ns d start) (λ r. finish_dir r.0 r.1) w a done in
          ap (λ (o : Result (Unit {0}) × World). o.1.disk) run
          ∙ finish_dir-Stored a.0 a.1 (after (defer_dir fuel ns d start) w) e
              (sym (ap (λ (o : Result (Unit {0}) × World). o.0) run) ∙ h)
          ∙ kept
      | inr (x, failed) ↦
          ap (λ (o : Result (Unit {0}) × World). o.1.disk)
            (bind_after_err (defer_dir fuel ns d start) (λ r. finish_dir r.0 r.1) w x failed)
          ∙ kept
    ]
