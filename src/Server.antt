-- ===== src/Server.antt =====
-- The state of a request's handler in src/davhandler.rs: `DavInner`, whose file system and lock
-- system each have a state of their own, and the statuses that src/multierror.rs sends.
pub mod Unlocked
use mathlib.Core.Option
use webdav_handler_rs.Prelude.{
  ℕ, ◌≡◌, Bool, true, false, Option, none, some, List, [], ◌∷◌, ◌++◌, Bytes, Outcome, ok, err,
  panic, out_of_fuel, Run,
}
use webdav_handler_rs.Errors.{FsError, DavError}
use webdav_handler_rs.DavPath.{DavPath}
use webdav_handler_rs.LockCheck.{Claim}
use webdav_handler_rs.DavPath.{parent, from_uri_and_prefix}
use webdav_handler_rs.DavHeaders.Depth.{Depth}
use webdav_handler_rs.Conditional
use webdav_handler_rs.Conditional.{if_match_get_tokens}
use webdav_handler_rs.Fs.{DavFileSystem, DavLockSystem, DavMetaData, conditional_meta}

-- The fields of `DavInner` that the handlers below read.
pub record DavInner (S Entry File L Element : Type 0) : Type 0 where
  pub prefix : Bytes
  pub fs : DavFileSystem S Entry File
  pub ls : Option (DavLockSystem L Element)
  pub principal : Option Bytes

-- The states of the file system and of the lock system, and the items in the channel of a
-- `MultiError`: paths and statuses.
pub record World (S L : Type 0) : Type 0 where
  pub files : S
  pub locks : L
  pub items : List (DavPath × ℕ)

module _ {S L : Type 0} {A : Type 0} {E : Type 0} where
  -- A call on the file system, or on the lock system.
  abbrev pub on_files : Run S E A → Run (World S L) E A
  on_files m w = ((m w.files).0, record w { files = (m w.files).1 })

  abbrev pub reads_files : (S → Outcome E A) → Run (World S L) E A
  reads_files f w = (f w.files, w)

  abbrev pub on_locks : Run L E A → Run (World S L) E A
  on_locks m w = ((m w.locks).0, record w { locks = (m w.locks).1 })

-- A request: the path of its uri, the headers that `Conditional` reads, and others as `typed_get`
-- returns them, which takes a header that does not decode for an absent one.
pub record DavRequest : Type 0 where
  pub uri : Bytes
  pub conditional : Conditional.Request
  pub depth : Option Depth
  pub overwrite : Option Bool
  pub destination : Option Bytes

-- `Err(e) => return Err(f(e))`
abbrev pub map_err {ℓ κ ι} :
    {A : Type ℓ} {E : Type κ} {E' : Type ι} → (E → E') → Outcome E A → Outcome E' A
map_err f (ok a) = ok a
map_err f (err e) = err (f e)
map_err f panic = panic
map_err f out_of_fuel = out_of_fuel

-- `o.ok()`, of a call for its effect.
abbrev pub forget {ℓ κ ι} :
    {A : Type ℓ} {E : Type κ} {E' : Type ι} → Outcome E A → Outcome E' (Unit {0})
forget (ok a) = ok tt
forget (err e) = ok tt
forget panic = panic
forget out_of_fuel = out_of_fuel

-- `meta.ok()`
abbrev pub found : Outcome FsError DavMetaData → Outcome DavError (Option DavMetaData)
found (ok m) = ok (some m)
found (err e) = ok none
found panic = panic
found out_of_fuel = out_of_fuel

-- `o.unwrap()`
abbrev pub unwrapped {ℓ κ ι} : {A : Type ℓ} {E : Type κ} {E' : Type ι} → Outcome E A → Outcome E' A
unwrapped (ok a) = ok a
unwrapped (err e) = panic
unwrapped panic = panic
unwrapped out_of_fuel = out_of_fuel

abbrev pub map_ok {ℓ κ ι} :
    {A : Type ℓ} {B : Type κ} {E : Type ι} → (A → B) → Outcome E A → Outcome E B
map_ok f (ok a) = ok (f a)
map_ok f (err e) = err e
map_ok f panic = panic
map_ok f out_of_fuel = out_of_fuel

-- `locksystem.delete(&path).ok()`, if there is a lock system.
unfoldable pub delete_in :
    {S L Element : Type 0}
    → Option (DavLockSystem L Element)
    → DavPath
    → Run (World S L) DavError (Unit {0})
delete_in none p w = (ok tt, w)
delete_in (some ls) p w = (
  forget (DavLockSystem.delete ls p (World.locks w)).0,
  record w { locks = (DavLockSystem.delete ls p (World.locks w)).1 },
)

module _ {S Entry File L Element : Type 0} (percent_decode : Bytes → Bytes)
    (inner : DavInner S Entry File L Element) where
  -- `self.path(&req)`, which unwraps.
  unfoldable pub path : DavRequest → Outcome DavError DavPath
  path req = unwrapped (from_uri_and_prefix percent_decode req.uri inner.prefix)

  -- `self.has_parent(&path)`
  unfoldable pub has_parent : DavPath → World S L → Outcome DavError Bool
  has_parent p w = elim (inner.fs.metadata (parent p) w.files) [
    | ok m ↦ ok m.is_dir
    | err _ ↦ ok false
    | panic ↦ panic
    | out_of_fuel ↦ out_of_fuel
  ]

  -- `if_match_get_tokens(&req, meta, &self.fs, &self.ls, &path)`, with the error made from a status.
  unfoldable pub get_tokens :
      (ℕ → DavError)
      → DavRequest
      → Option DavMetaData
      → DavPath
      → World S L
      → Outcome DavError (List Bytes)
  get_tokens error req meta p w = map_err error (
      if_match_get_tokens percent_decode
        (λ q. map_ok conditional_meta (inner.fs.metadata q w.files))
        (Option.map (λ ls q c deep. DavLockSystem.check ls q c deep w.locks) inner.ls)
        req.conditional (Option.map conditional_meta meta) p)

  -- The question whether a lock is in the way of the handler's principal with these tokens.
  unfoldable pub check_locks :
      DavError → DavPath → Bool → List Bytes → World S L → Outcome DavError (Unit {0})
  check_locks locked p deep tokens w = elim inner.ls [
    | none ↦ ok tt
    | some ls ↦
        map_err (λ _. locked)
          (ls.check p
            (record {
              principal = inner.principal;
              ignore_principal = false;
              submitted_tokens = tokens;
            })
            deep w.locks)
  ]

  unfoldable pub delete_locks : DavPath → Run (World S L) DavError (Unit {0})
  unfolding delete_in
  delete_locks p = delete_in inner.ls p
