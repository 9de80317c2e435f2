-- ===== src/Share.antt =====
-- internal/domain/share.go, over the table shares of internal/adapters/metadata/sqlite.go. The
-- password hashes are those of golang.org/x/crypto/bcrypt: `hash_password` is
-- GenerateFromPassword, `password_matches` is CompareHashAndPassword. Tokens are drawn from
-- crypto/rand by the caller. The store of the server knows the files and takes downloads atomically
-- (internal/adapters/metadata/facade.go), so CreateShare checks the file. Times are seconds, as RFC 3339 writes them.
pub mod Downloads
use fileupload.Upload.Config.{not_positive}
use fileupload.Base.{
  ◌-◌, pos_part, ◌/◌, ◌+◌, is_nil, some, ◌==◌, ◌^◌, true, ◌&&◌, ◌||◌, map, ◌∷◌, select, sort_by, [],
  none, update_where, ltb, ◌%◌, is_empty, if◌then◌else◌, leb, false, eqb, not, ◌*◌, Bool, ℤ, List,
  Bytes, Option, ℕ,
}
use fileupload.Domain.{
  err, forbidden, invalid_argument, backend, share_exhausted, not_found, ok, FileMetadata,
  ShareEntry,
}
use fileupload.World.{
  backend_call, require, gets, pure, attempt, raise, modify_db, Exec, ◌>>=◌, ◌>>◌,
}
use fileupload.Store.{get_file}

-- SELECT by the token, which is the table's key
unfoldable pub find_share : Bytes → List ShareEntry → Option ShareEntry
find_share token [] = none
find_share token (s ∷ ss) = if s.token == token then some s else find_share token ss

-- an INSERT of a token that is there fails
insert_row : ShareEntry → Option ShareEntry → Exec (Unit {0})
insert_row s none = modify_db (λ d. record d { shares = s ∷ d.shares })
insert_row s (some other) = raise backend

unfoldable pub create_share_row : ShareEntry → Exec (Unit {0})
unfolding insert_row
create_share_row s = do
  backend_call
  other ← gets (λ w. find_share s.token w.db.shares)
  now ← gets (λ w. w.now)
  insert_row (record s { created_at = now }) other

-- any error of the row's scan is no share
unfoldable pub get_share : Bytes → Exec (Option ShareEntry)
get_share token = do
  down ← attempt backend_call
  shares ← gets (λ w. w.db.shares)
  elim down [ ok _ ↦ pure (find_share token shares) | err _ ↦ pure none ]

-- ORDER BY created_at DESC
by_creation : ShareEntry → ShareEntry → Bool
by_creation s s' = leb s'.created_at s.created_at

unfoldable pub list_share_rows : Bytes → Bytes → Exec (List ShareEntry)
unfolding by_creation
list_share_rows ns file_id = do
  backend_call
  gets (λ w.
      sort_by by_creation
        (select (λ s. s.namespace == ns && (is_empty file_id || s.file_id == file_id)) w.db.shares))

unfoldable pub delete_share : Bytes → Bytes → Exec (Unit {0})
delete_share token ns = do
  backend_call
  before ← gets (λ w. w.db.shares)
  modify_db (λ d. record d {
    shares = select (λ s. not (s.token == token && s.namespace == ns)) d.shares;
  })
  require (not (is_nil (select (λ s. s.token == token && s.namespace == ns) before))) not_found

-- max_downloads = 0 OR cur_downloads < max_downloads
abbrev pub has_download : ShareEntry → Bool
has_download s = eqb s.max_downloads 0 || ltb s.cur_downloads s.max_downloads

unfoldable pub count_download : Bytes → List ShareEntry → List ShareEntry
count_download token =
    update_where (λ s. s.token == token && has_download s)
      (λ s. record s { cur_downloads = s.cur_downloads + 1 })

-- whether the UPDATE affects a row
pub row_affected : Option ShareEntry → Bool
row_affected none = false
row_affected (some s) = has_download s

-- TryConsumeDownload
unfoldable pub try_consume_download : Bytes → Exec Bool
unfolding row_affected count_download find_share
try_consume_download token = do
  backend_call
  found ← gets (λ w. find_share token w.db.shares)
  modify_db (λ d. record d { shares = count_download token d.shares })
  pure (row_affected found)

unfoldable pub consume_download : Bytes → Exec (Unit {0})
unfolding try_consume_download
consume_download token = do taken ← try_consume_download token; require taken share_exhausted

-- time.Now().Add(time.Duration(hours) * time.Hour), whose product of nanoseconds wraps around
pub expiry : ℕ → ℕ → ℕ
expiry now hours =
    let ns = (hours * 3_600_000_000_000) % (2 ^ 64) in
    if ltb ns (2 ^ 63)
    then now + ns / 1_000_000_000
    else (now * 1_000_000_000 - (2 ^ 64 - ns)) / 1_000_000_000

-- exp, err := time.Parse(...); time.Now().After(exp)
abbrev pub is_expired : ℕ → ShareEntry → Bool
is_expired now s = elim s.expires_at [ none ↦ false | some at ↦ ltb at now ]

abbrev pub is_used_up : ShareEntry → Bool
is_used_up s = ltb 0 s.max_downloads && leb s.max_downloads s.cur_downloads

abbrev pub with_flag : ShareEntry → ShareEntry
with_flag s = record s { password_protected = not (is_empty s.password_hash) }

module _ (hash_password : Bytes → Option Bytes) where
  -- the hash of the entry; no password leaves it empty
  hashed : Bytes → Exec Bytes
  hashed password =
      if is_empty password
      then pure []
      else (elim (hash_password password) [ none ↦ raise backend | some h ↦ pure h ])

  -- the checks on the file
  pub shareable : Bytes → Option FileMetadata → Exec (Unit {0})
  shareable ns none = raise not_found
  shareable ns (some f) = do
    require (f.namespace == ns) forbidden
    require (not f.is_dir) invalid_argument

  unfoldable pub create_share : Bytes → Bytes → Bytes → ℤ → ℤ → Bytes → Exec ShareEntry
  unfolding hashed shareable expiry
  create_share token file_id password hours most ns = do
    require (not (is_empty file_id)) invalid_argument
    f ← get_file file_id
    shareable ns f
    h ← hashed password
    now ← gets (λ w. w.now)
    let s : ShareEntry = record {
      token = token;
      file_id = file_id;
      password_hash = h;
      password_protected = not (is_empty password);
      expires_at = if not_positive hours then none else some (expiry now (pos_part hours));
      max_downloads = if not_positive most then 0 else pos_part most;
      cur_downloads = 0;
      namespace = ns;
      created_at = 0;
    }
    create_share_row s
    pure s

module _ (password_matches : Bytes → Bytes → Bool) where
  -- the checks of authorizeShare, in its order
  pub check_share : ℕ → Bytes → Bool → Option ShareEntry → Exec ShareEntry
  check_share now password verified none = raise not_found
  check_share now password verified (some s) = do
    require (not (is_expired now s)) share_exhausted
    require (not (is_used_up s)) share_exhausted
    require (is_empty s.password_hash || verified || password_matches s.password_hash password)
        forbidden
    pure (with_flag s)

  unfoldable pub authorize : Bytes → Bytes → Bool → Exec ShareEntry
  unfolding check_share get_share
  authorize token password verified = do
    found ← get_share token
    now ← gets (λ w. w.now)
    check_share now password verified found

  unfoldable pub inspect_share : Bytes → Exec ShareEntry
  unfolding authorize
  inspect_share token = authorize token [] true

  unfoldable pub access_share : Bytes → Bytes → Exec ShareEntry
  unfolding authorize consume_download
  access_share token password = do
    s ← authorize token password false
    consume_download token
    pure s

  unfoldable pub access_authorized_share : Bytes → Exec ShareEntry
  unfolding authorize consume_download
  access_authorized_share token = do s ← authorize token [] true; consume_download token; pure s

unfoldable pub list_shares : Bytes → Bytes → Exec (List ShareEntry)
unfolding list_share_rows
list_shares ns file_id = do rows ← list_share_rows ns file_id; pure (map with_flag rows)

unfoldable pub revoke_share : Bytes → Bytes → Exec (Unit {0})
revoke_share token ns = do require (not (is_empty token)) invalid_argument; delete_share token ns
