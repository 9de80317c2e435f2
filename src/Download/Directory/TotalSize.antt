-- ===== src/Download/Directory/TotalSize.antt =====
-- GetDirTotalSize and the total of GetDirManifest.
use fileupload.Upload.Delete.References.{get_file-answered}
use fileupload.Upload.Isolation.{called}
use fileupload.Meta.Files.{live_file}
use fileupload.Store.{list_children}
use fileupload.Domain.{err, ok, FileMetadata, Result}
use fileupload.Download.Directory.{
  get_dir_manifest, entry_of, rel_path, by_path, manifest_of, walker_of, add64, walk_dir,
  walk_children, add_children, add_sizes, DirEntryInfo, get_dir_total_size,
}
use fileupload.World.{pure, continue, World, Exec, ◌>>=◌}
use fileupload.Base.{
  false, inr, eq_iff, sum_of-sort_by, some, inl, sort_by, true, Bool, Bool-cases, ◌%◌, arith, ◌∙◌,
  [], sum_of, refl, zero, ◌∷◌, suc, ◌+◌, ap, ◌≡◌, ◌^◌, ◌<◌, ◌++◌, ℕ, List, Bytes,
}

abbrev pub over : {A B : Type 0} → (A → B) → Result A × World → Result B × World
over f (ok a, w) = (ok (f a), w)
over f (err e, w) = (err e, w)

continue-over :
    {A B C D : Type 0} (f : A → B) (g : C → D) (p : Result A × World) (k : B → Exec D)
    (k' : A → Exec C)
    → ((a : A) (v : World) → k (f a) v ≡ over g (k' a v))
    → continue (over f p).0 k (over f p).1 ≡ over g (continue p.0 k' p.1)
continue-over f g (ok a, w) k k' same = same a w
continue-over f g (err e, w) k k' same = refl

-- two compositions that agree step by step
bind-over :
    {A B C D : Type 0} (f : A → B) (g : C → D) (m : Exec B) (m' : Exec A) (k : B → Exec D)
    (k' : A → Exec C) (w : World)
    → m w ≡ over f (m' w)
    → ((a : A) (v : World) → k (f a) v ≡ over g (k' a v))
    → (m >>= k) w ≡ over g ((m' >>= k') w)
bind-over f g m m' k k' w first same =
    ap (λ (o : Result _ × World). continue o.0 k o.1) first ∙ continue-over f g (m' w) k k' same

add_sizes-sum :
    (t : ℕ) (es : List DirEntryInfo)
    → t < 2 ^ 64
    → add_sizes t es ≡ (t + sum_of (λ e. e.size) es) % 2 ^ 64
unfolding add_sizes
add_sizes-sum t [] h = omega arith
add_sizes-sum t (e ∷ es) h = omega (arith, add_sizes-sum (add64 t e.size) es (omega arith))

add_sizes-append :
    (t : ℕ) (ds es : List DirEntryInfo) → add_sizes t (ds ++ es) ≡ add_sizes (add_sizes t ds) es
unfolding add_sizes
add_sizes-append t [] es = refl
add_sizes-append t (d ∷ ds) es = add_sizes-append (add64 t d.size) ds es

add_sizes-add64 :
    (t : ℕ) (es : List DirEntryInfo) → t < 2 ^ 64 → add64 t (add_sizes 0 es) ≡ add_sizes t es
add_sizes-add64 t es h = omega (arith, add_sizes-sum t es h, add_sizes-sum 0 es (omega arith))

-- the entries of one child, then those of the others
over-append :
    (t : ℕ) (es : List DirEntryInfo) (p : Result (List DirEntryInfo) × World)
    → over (add_sizes (add_sizes t es)) p
      ≡ over (add_sizes t) (continue p.0 (λ rest. pure (es ++ rest)) p.1)
over-append t es (ok rest, v) = rw (add_sizes-append t es rest)
over-append t es (err e, v) = refl

over_id : {A : Type 0} (p : Result A × World) → p ≡ over (λ a. a) p
over_id (ok a, w) = refl
over_id (err e, w) = refl

add64-bound : (a b : ℕ) → add64 a b < 2 ^ 64
add64-bound a b = omega arith

add_children-walk :
    (go : Bytes → Exec ℕ) (walk : Bytes → Bytes → Exec (List DirEntryInfo)) (t : ℕ) (prefix : Bytes)
    (cs : List FileMetadata) (w : World)
    → ((id p : Bytes) (v : World) → go id v ≡ over (add_sizes 0) (walk id p v))
    → t < 2 ^ 64
    → add_children go t cs w ≡ over (add_sizes t) (walk_children walk prefix cs w)
unfolding add_children walk_children rel_path
add_children-walk go walk t prefix [] w agree h = unfold add_sizes in refl
add_children-walk go walk t prefix (c ∷ cs) w agree h =
    let rest =
      λ (es : List DirEntryInfo). walk_children walk prefix cs >>= λ more. pure (es ++ more) in
    let others : (es : List DirEntryInfo) (n : ℕ) (v : World)
        → add64 t n ≡ add_sizes t es
        → add_children go (add64 t n) cs v ≡ over (add_sizes t) (rest es v) =
      λ es n v e.
        add_children-walk go walk (add64 t n) prefix cs v agree (add64-bound t n)
        ∙ ap (λ (s : ℕ). over (add_sizes s) (walk_children walk prefix cs v)) e
        ∙ over-append t es (walk_children walk prefix cs v) in
    elim (Bool-cases c.is_dir) [
      | inl dir ↦ rw dir (
          bind-over (add_sizes 0) (add_sizes t) (go c.file_id) (walk c.file_id (rel_path prefix c))
            (λ n. add_children go (add64 t n) cs) rest w (agree c.file_id (rel_path prefix c) w)
            (λ es v. others es (add_sizes 0 es) v (add_sizes-add64 t es h)))
      | inr file ↦ rw file (others (entry_of prefix c ∷ []) c.size w (unfold add_sizes in refl))
    ]

total_size-walk :
    (fuel : ℕ) (id prefix : Bytes) (w : World)
    → get_dir_total_size fuel id w ≡ over (add_sizes 0) (walk_dir fuel id prefix w)
unfolding get_dir_total_size walk_dir
total_size-walk zero id prefix w = refl
total_size-walk (suc fuel) id prefix w =
    bind-over (λ cs. cs) (add_sizes 0) (list_children id) (list_children id)
      (add_children (get_dir_total_size fuel) 0) (walk_children (walk_dir fuel) prefix) w
      (over_id (list_children id w))
      (λ cs v.
        add_children-walk (get_dir_total_size fuel) (walk_dir fuel) 0 prefix cs v
          (total_size-walk fuel) (omega arith))

-- the order of the entries does not change their total
add_sizes-sort_by :
    (le : DirEntryInfo → DirEntryInfo → Bool) (es : List DirEntryInfo)
    → add_sizes 0 (sort_by le es) ≡ add_sizes 0 es
add_sizes-sort_by le es = omega (
  arith,
  add_sizes-sum 0 (sort_by le es) (omega arith),
  add_sizes-sum 0 es (omega arith),
  sum_of-sort_by le (λ e. e.size) es,
)

module _ (sum_hex : Bytes → Bytes) where
  over-walker :
      (dir : FileMetadata) (id : Bytes) (p : Result (List DirEntryInfo) × World)
      → over (add_sizes 0) p
        ≡ over (λ d. d.total_size) (continue p.0 (λ es. pure (walker_of sum_hex dir id es)) p.1)
  unfolding walker_of
  over-walker dir id (ok es, v) = rw (add_sizes-sort_by by_path es)
  over-walker dir id (err e, v) = refl

  -- For a live directory of the namespace whose lookup answers, GetDirManifest gives what GetDirTotalSize
  -- gives of the same identifier in the state after that lookup: from there on they make the same calls,
  -- fail together with the same error and leave the same state, and where they return, the total size of
  -- the manifest, an int64 that may wrap around, is the size of the directory.
  pub manifest-total_size :
      (fuel : ℕ) (id ns : Bytes) (dir : FileMetadata) (w : World)
      → w.fails w.calls ≡ false
      → live_file id w.db.files ≡ some dir
      → dir.is_dir ≡ true
      → dir.namespace ≡ ns
      → get_dir_total_size fuel id (called w)
        ≡ over (λ d. d.total_size) (get_dir_manifest sum_hex fuel id ns w)
  unfolding get_dir_manifest manifest_of
  manifest-total_size fuel id ns dir w up there is_dir mine =
      rw (get_file-answered id w up, there, is_dir, (eq_iff dir.namespace ns).1 mine)
        (total_size-walk fuel id [] (called w)
          ∙ over-walker dir id (walk_dir fuel id [] (called w)))
