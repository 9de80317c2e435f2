-- ===== src/Upload/Submit/Foreign.antt =====
-- SubmitDir writes only to files of its own namespace.
use fileupload.Upload.Submit.Rows.{
  place_entries-Row, make_dirs-Row, put_file-Row, get_file-Row, row_rules, new_id-Row, Row,
}
use fileupload.Upload.Delete.References.{get_file-answered, get_file-failed}
use fileupload.World.Inversion.{bind_after_ok, Result-cases, bind_after_err}
use std.Path.{subst}
use fileupload.Upload.Trash.{is_seen}
use fileupload.Upload.Names.{is_safe_relative_path}
use fileupload.Upload.Submit.{
  dir_name, root_row, make_tree, submit_dir, validate_dir_manifest, check_entries, check_entry_file,
}
use fileupload.World.{continue, after, ◌>>◌, require, result, Exec, World}
use fileupload.World.Keeps.{Keeps-pure, Keeps-gets, Keeps-require, Keeps-bind, Keeps, keeps_rules}
use fileupload.Store.{get_file}
use fileupload.Domain.{
  backend, DirManifest, forbidden, invalid_argument, DomainError, ok, Result, DirEntry,
  FileMetadata,
}
use fileupload.Meta.Files.{live_file}
use fileupload.Base.{
  length, leb, ◌+◌, ap, inr, ◌∙◌, sym, inl, Bool-cases, ◌&&◌, is_empty, not, true, Bool, All,
  Option, refl, eq_iff, [], ◌∷◌, false, arith, ◌==◌, ◌≡◌, List, Bytes, none, some,
}

then_require-ok :
    {A : Type 0} (b : Bool) (x : DomainError) (m : Exec A) (w : World) (a : A)
    → result (require b x >> m) w ≡ ok a
    → result m w ≡ ok a
then_require-ok true x m w a e = e
then_require-ok false x m w a e = ground arith

-- the checks of a file, one after the other
checks-ok :
    (a b : Bool) (x y : DomainError) (m : Exec (Unit {0})) (w : World)
    → result ((require a x >> require b y) >> m) w ≡ ok tt
    → (b ≡ true) × (result m w ≡ ok tt)
checks-ok true true x y m w e = (refl, e)
checks-ok true false x y m w e = ground arith
checks-ok false b x y m w e = ground arith

-- a checked entry is about another file
check_found-other :
    (k ns : Bytes) (found : Option FileMetadata) (m : Exec (Unit {0})) (id : Bytes)
    (f : FileMetadata) (w v : World)
    → live_file k w.db.files ≡ found
    → live_file id w.db.files ≡ some f
    → f.namespace == ns ≡ false
    → result (check_entry_file ns found >> m) v ≡ ok tt
    → (k == id ≡ false) × (result m v ≡ ok tt)
unfolding check_entry_file
check_found-other k ns none m id f w v here row foreign e = ground arith
check_found-other k ns (some g) m id f w v here row foreign e =
    let (mine, rest) =
      checks-ok (not g.is_dir) (g.namespace == ns) invalid_argument forbidden m v e in
    let other : k == id ≡ false = elim (Bool-cases (k == id)) [
      | inl same ↦
          let one : some g ≡ some f =
            sym here
            ∙ subst (λ i. live_file i w.db.files ≡ some f) (sym ((eq_iff k id).0 same)) row in
          absurd (ground (arith, mine, foreign, one))
      | inr differs ↦ differs
    ] in
    (other, rest)

check_entries-others :
    (ns : Bytes) (paths files : List Bytes) (es : List DirEntry) (id : Bytes) (f : FileMetadata)
    (w : World)
    → live_file id w.db.files ≡ some f
    → f.namespace == ns ≡ false
    → result (check_entries ns paths files es) w ≡ ok tt
    → All (λ e. e.file_id == id ≡ false) es
unfolding check_entries
check_entries-others ns paths files [] id f w row foreign r = tt
check_entries-others ns paths files (e ∷ es) id f w row foreign r =
    let r₁ =
      then_require-ok (not (is_empty e.file_id) && is_safe_relative_path e.path) invalid_argument _
        w tt r in
    let r₂ = then_require-ok (not (is_seen e.path paths)) invalid_argument _ w tt r₁ in
    let r₃ = then_require-ok (not (is_seen e.file_id files)) invalid_argument _ w tt r₂ in
    elim (Bool-cases (w.fails w.calls)) [
      | inl down ↦
          let stops =
            bind_after_err (get_file e.file_id)
              (λ found.
                check_entry_file ns found
                >> check_entries ns (e.path ∷ paths) (e.file_id ∷ files) es)
              w backend
              (ap (λ (o : Result (Option FileMetadata) × World). o.0)
                (get_file-failed e.file_id w down)) in
          absurd (ground (arith, r₃, stops))
      | inr up ↦
          let more =
            subst
              (λ (o : Result (Option FileMetadata) × World).
                result
                  (λ (v : World).
                    continue o.0
                      (λ found.
                        check_entry_file ns found
                        >> check_entries ns (e.path ∷ paths) (e.file_id ∷ files) es)
                      o.1)
                  w
                ≡ ok tt)
              (get_file-answered e.file_id w up) r₃ in
          let v = record w { calls = w.calls + 1 } in
          let (other, rest) =
            check_found-other e.file_id ns (live_file e.file_id w.db.files)
              (check_entries ns (e.path ∷ paths) (e.file_id ∷ files) es) id f w v refl row foreign
              more in
          (
            other,
            check_entries-others ns (e.path ∷ paths) (e.file_id ∷ files) es id f v row foreign rest,
          )
    ]

check_found-Row :
    {id : Bytes} {f : FileMetadata} (ns : Bytes) (found : Option FileMetadata)
    → Keeps (Row id f) (check_entry_file ns found)
unfolding check_entry_file
check_found-Row ns none = search keeps_rules
check_found-Row ns (some g) = search keeps_rules

check_entries-Row :
    {id : Bytes} {f : FileMetadata} (ns : Bytes) (paths files : List Bytes) (es : List DirEntry)
    → Keeps (Row id f) (check_entries ns paths files es)
unfolding check_entries
check_entries-Row ns paths files [] = search keeps_rules
check_entries-Row {id} {f} ns paths files (e ∷ es) =
    Keeps-bind _ _
      (Keeps-require (not (is_empty e.file_id) && is_safe_relative_path e.path) invalid_argument)
      (λ _. Keeps-bind _ _ (Keeps-require (not (is_seen e.path paths)) invalid_argument) (λ _.
        Keeps-bind _ _ (Keeps-require (not (is_seen e.file_id files)) invalid_argument) (λ _.
          Keeps-bind _ _ (get_file-Row e.file_id) (λ found.
            Keeps-bind _ _ (check_found-Row ns found)
              (λ _. check_entries-Row ns (e.path ∷ paths) (e.file_id ∷ files) es)))))

validate-Row :
    {id : Bytes} {f : FileMetadata} (ns : Bytes) (m : DirManifest)
    → Keeps (Row id f) (validate_dir_manifest ns m)
unfolding validate_dir_manifest
validate-Row ns m = search (row_rules, check_entries-Row)

make_tree-Row :
    {id : Bytes} {f : FileMetadata} (ns : Bytes) (m : DirManifest)
    → All (λ e. e.file_id == id ≡ false) m.entries
    → Keeps (Row id f) (make_tree ns m)
unfolding make_tree
make_tree-Row ns m others = Keeps-bind _ _ new_id-Row (λ k.
    Keeps-bind _ _ (Keeps-gets (λ w. w.now)) (λ now.
      Keeps-bind _ _ (put_file-Row (root_row ns m k now)) (λ _.
        Keeps-bind _ _ (make_dirs-Row ns k now _ _) (λ dirs.
          Keeps-bind _ _ (place_entries-Row ns (dir_name m k) k dirs m.entries others)
            (λ _. Keeps-pure (root_row ns m k now))))))

-- SubmitDir leaves the row of every live file of another namespace as it is, with its name, its place and
-- its digest, whatever the manifest names, whichever backend calls fail, and wherever it stops. The content
-- that such a file's digest stands for may move.
pub submit_dir_foreign :
    (ns : Bytes) (m : DirManifest) (id : Bytes) (f : FileMetadata) (w : World)
    → live_file id w.db.files ≡ some f
    → f.namespace == ns ≡ false
    → live_file id (after (submit_dir ns m) w).db.files ≡ some f
unfolding submit_dir
submit_dir_foreign ns m id f w row foreign =
    let checked = validate_dir_manifest ns m in
    let here = (validate-Row {id = id} {f = f} ns m).from w (record { row = row }) in
    elim (Result-cases (result checked w)) [
      | inr (x, failed) ↦
          subst (λ (o : Result FileMetadata × World). live_file id o.1.db.files ≡ some f)
            (sym (bind_after_err checked (λ _. make_tree ns m) w x failed)) here.row
      | inl (u, passed) ↦
          let others = check_entries-others ns [] [] m.entries id f w row foreign (
            then_require-ok (leb (length m.entries) 10000) invalid_argument _ w tt
              (unfold validate_dir_manifest in passed)) in
          subst (λ (o : Result FileMetadata × World). live_file id o.1.db.files ≡ some f)
            (sym (bind_after_ok checked (λ _. make_tree ns m) w u passed))
            ((make_tree-Row {id = id} {f = f} ns m others).from (after checked w) here).row
    ]
