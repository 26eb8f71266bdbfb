-- ===== src/Tests/Handlers.antt =====
-- Requests to delete and to copy over a file system with one directory, `/d/`.
use webdav_handler_rs.Prelude.{
  IsDone, ℕ, zero, suc, ◌≡◌, ◌≤◌, true, false, none, some, List, [], ◌∷◌, Bytes, ◌==◌, nat_eq,
  list_eq, if◌then◌else◌, Outcome, ok, err, Keeps, EndsFrom, arith, Bool, All, ap, subst, ◌≢◌,
  out_of_fuel,
}
use webdav_handler_rs.Errors.{FsError}
use webdav_handler_rs.DavPath.{DavPath}
use webdav_handler_rs.DavHeaders.Depth.{Depth}
use webdav_handler_rs.Conditional.{Method}
use webdav_handler_rs.Fs.{DavFileSystem, DavMetaData}
use webdav_handler_rs.Server.{DavInner, DavRequest, World}
use webdav_handler_rs.HandleDelete.{entry_path, delete_items, handle_delete}
use webdav_handler_rs.HandleDelete.Confined.{Under, delete_items-kept}
use webdav_handler_rs.HandleDelete.Returns.{IsTotal, HasLevels, delete_items_returns}
use webdav_handler_rs.HandleDelete.Replies as DeleteReplies
use webdav_handler_rs.HandleDelete.Replies.{handle_delete-reply}
use webdav_handler_rs.HandleCopymove.{copy, handle_copymove}
use webdav_handler_rs.HandleCopymove.Replies as CopyReplies
use webdav_handler_rs.HandleCopymove.Replies.{handle_copymove-reply}

abbrev decode : Bytes → Bytes
decode s = s

abbrev file : DavMetaData
file = record {
  len = 0;
  is_dir = false;
  is_file = true;
  is_symlink = false;
  modified = none;
  etag = none;
}

abbrev dir : DavMetaData
dir = record file { is_dir = true; is_file = false }

abbrev dir_d : Bytes
dir_d = b'/' ∷ b'd' ∷ b'/' ∷ []

abbrev path_d : DavPath
path_d = record { fullpath = dir_d; pfxlen = none }

abbrev meta_of : Bytes → ℕ → Outcome FsError DavMetaData
meta_of p files = if p == dir_d then ok dir else if p == [] then ok dir else err FsError.not_found

abbrev entries_of : ℕ → List Bytes
entries_of zero = []
entries_of (suc n) = (b'x' ∷ []) ∷ entries_of n

abbrev take_one : ℕ → Outcome FsError (Unit {0}) × ℕ
take_one zero = (err FsError.not_found, zero)
take_one (suc n) = (ok tt, n)

abbrev drop_dir : ℕ → Outcome FsError (Unit {0}) × ℕ
drop_dir zero = (ok tt, zero)
drop_dir (suc n) = (err FsError.exists, suc n)

-- The state is the number of files in the directory. The root is the empty path.
abbrev disk : DavFileSystem ℕ Bytes ℕ
disk = record {
  metadata = λ p n. meta_of (DavPath.fullpath p) n;
  symlink_metadata = λ p n. meta_of (DavPath.fullpath p) n;
  read_dir = λ p n. ok (entries_of n);
  entry_name = λ e. e;
  entry_metadata = λ e n. ok file;
  create_dir = λ p n. (ok tt, n);
  remove_dir = λ p n. drop_dir n;
  remove_file = λ p n. take_one n;
  rename = λ p q n. (ok tt, n);
  copy = λ p q n. (ok tt, suc n);
  open_ = λ p o n. (ok 0, n);
}

abbrev inner : DavInner ℕ Bytes ℕ ℕ ℕ
inner = record { prefix = []; fs = disk; ls = none; principal = none }

abbrev two_files : World ℕ ℕ
two_files = record { files = 2; locks = 0; items = [] }

abbrev request : DavRequest
request = record {
  uri = dir_d;
  conditional = record {
    method = Method.other;
    if_match = none;
    if_none_match = none;
    if_modified_since = none;
    if_unmodified_since = none;
    if_ = none;
  };
  depth = none;
  overwrite = none;
  destination = some (b'/' ∷ b'e' ∷ []);
}

take_one_le : (p : DavPath) → Under inner path_d p → Keeps (λ n. n ≤ 2) (disk.remove_file p)
take_one_le p u = record { at = fewer }
  where
    fewer : (n : ℕ) → n ≤ 2 → (take_one n).1 ≤ 2
    fewer zero h = h
    fewer (suc n) h = omega arith

drop_dir_le : (p : DavPath) → Under inner path_d p → Keeps (λ n. n ≤ 2) (disk.remove_dir p)
drop_dir_le p u = record { at = same }
  where
    same : (n : ℕ) → n ≤ 2 → (drop_dir n).1 ≤ 2
    same zero h = h
    same (suc n) h = h

delete_items-kept_example :
    ((delete_items inner 3 Depth.infinity dir path_d two_files).1.files ≤ 2)
    × ((delete_items inner 3 Depth.infinity dir path_d two_files).1.locks ≡ 0)
delete_items-kept_example =
    delete_items-kept inner (λ n. n ≤ 2) path_d take_one_le drop_dir_le 3 Depth.infinity dir
      two_files (omega arith)

handle_delete-reply_example :
    EndsFrom
      (DeleteReplies.IsAnswer decode inner 3 request two_files)
      (λ e w. w ≡ two_files)
      (handle_delete decode inner 3 request)
      two_files
handle_delete-reply_example = handle_delete-reply decode inner 3 request two_files

handle_copymove-reply_example :
    EndsFrom
      (CopyReplies.IsAnswer decode inner 3 copy request two_files)
      (λ e w. w ≡ two_files)
      (handle_copymove decode inner 3 copy request)
      two_files
handle_copymove-reply_example = handle_copymove-reply decode inner 3 copy request two_files

disk-IsTotal : IsTotal (λ n. Unit {0}) disk
disk-IsTotal = record {
  read_dir_done = λ p n. tt;
  entry_metadata_done = λ e n. tt;
  remove_file_halts = λ p n _. taken n;
  remove_dir_halts = λ p n _. dropped n;
}
  where
    taken : (n : ℕ) → IsDone (take_one n).0 × Unit {0}
    taken zero = (tt, tt)
    taken (suc n) = (tt, tt)

    dropped : (n : ℕ) → IsDone (drop_dir n).0 × Unit {0}
    dropped zero = (tt, tt)
    dropped (suc n) = (tt, tt)

abbrev listed : Outcome FsError (List Bytes) → List Bytes
listed (ok es) = es
listed _ = []

abbrev found_dir : Outcome FsError DavMetaData → Bool
found_dir (ok m) = m.is_dir
found_dir _ = false

not_dir : (m : DavMetaData) → disk.entry_metadata [] 0 ≡ ok m → m.is_dir ≡ true → ⊥
not_dir m is_file is_dir = let same = ap found_dir is_file in cc

-- The directory and its files are two levels.
two_levels : HasLevels inner (λ n. Unit {0}) 2 dir path_d
two_levels _ n _ entries e = subst (All IsFile) (ap listed e) (all_files n)
  where
    IsFile : Bytes → Type 0
    IsFile name =
        (n : ℕ)
        → Unit {0}
        → (m : DavMetaData) → disk.entry_metadata name n ≡ ok m
        → (q : DavPath) → entry_path inner path_d name m ≡ ok q
        → HasLevels inner (λ n. Unit {0}) 1 m q

    all_files : (n : ℕ) → All IsFile (entries_of n)
    all_files zero = tt
    all_files (suc n) =
        ((λ _ _ m is_file q _ is_dir. absurd (not_dir m is_file is_dir)), all_files n)

delete_items_returns_example :
    (delete_items inner 2 Depth.infinity dir path_d two_files).0 ≢ out_of_fuel
delete_items_returns_example =
    delete_items_returns inner (λ n. Unit {0}) disk-IsTotal 2 Depth.infinity dir path_d two_levels
      two_files tt
