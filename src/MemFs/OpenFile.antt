-- ===== src/MemFs/OpenFile.antt =====
-- `DavFile` of src/memfs.rs: an open file reads, writes and seeks. Positions are usize of 64 bits
-- and wrap round; a slice whose end is before its start panics.
mod Spliced
pub mod Written
use webdav_handler_rs.Prelude.{
  ℕ, suc, ◌&&◌, ◌+◌, ◌-◌, ◌%◌, ◌^◌, Bool, true, false, List, [], ◌∷◌, ◌++◌, Bytes, Eq, ◌==◌, nat_eq,
  ltb, min, length, take, drop, replicate, concat, if◌then◌else◌, Outcome, ok, err, panic,
  out_of_fuel, and_then, Run, pure, fail, reads, continue, ◌>>=◌, ◌>>◌, ℤ, pos, negsuc,
}
use webdav_handler_rs.Errors.{FsError}
use webdav_handler_rs.Tree.{get_node, update_node, u64_mod}
use webdav_handler_rs.MemFs.Nodes.{MemFsNode, MemFsFileNode, MemFsDirEntry, as_file, as_dirent}
use webdav_handler_rs.MemFs.Lookup.{FsTree}
use webdav_handler_rs.MemFs.{MemFsFile}

-- The tree, and one open file of it.
pub record FileState : Type 0 where
  pub tree : FsTree
  pub file : MemFsFile

-- `std::io::SeekFrom`
pub data SeekFrom : Type 0 where
  from_start : ℕ → SeekFrom
  from_current from_end : ℤ → SeekFrom

unfoldable pub file_metadata : FileState → Outcome FsError MemFsDirEntry
file_metadata s = and_then (get_node s.tree s.file.node_id) λ node. ok (as_dirent node [])

-- `get_node(self.node_id)?.as_file()?`
unfoldable pub read_file : FileState → Outcome FsError MemFsFileNode
read_file s = and_then (get_node s.tree s.file.node_id) as_file

abbrev pub set_data : Bytes → MemFsNode → MemFsNode
set_data d (MemFsNode.file f) = MemFsNode.file (record f { data_ = d })
set_data d (MemFsNode.dir n) = MemFsNode.dir n

abbrev pub set_pos : ℕ → FileState → FileState
set_pos p s = record s { file = record s.file { pos = p } }

-- `data[start..end]`
abbrev pub slice : Bytes → ℕ → ℕ → Bytes
slice d start end = take (end - start) (drop start d)

unfoldable pub read_bytes : ℕ → Run FileState FsError Bytes
read_bytes count s = elim (read_file s) [
  | ok f ↦
      let curlen = length f.data_ in
      let start = min s.file.pos curlen in
      let end = min ((s.file.pos + count) % u64_mod) curlen in
      if ltb end start
      then (panic, set_pos ((s.file.pos + (u64_mod + end - start)) % u64_mod) s)
      else (ok (slice f.data_ start end), set_pos ((s.file.pos + (end - start)) % u64_mod) s)
  | err e ↦ (err e, s)
  | panic ↦ (panic, s)
  | out_of_fuel ↦ (out_of_fuel, s)
]

-- `isize::MAX`, the largest capacity of a `Vec<u8>`.
abbrev pub isize_max : ℕ
isize_max = 2 ^ 63 - 1

abbrev pub extended : ℕ → Bytes → Bytes
extended end d = d ++ replicate (end - length d) 0

-- `data.resize(end, 0)` if the data is shorter, which panics on a capacity overflow.
unfoldable pub grow : ℕ → Bytes → Outcome FsError Bytes
grow end d = if ltb (length d) end && ltb isize_max end then panic else ok (extended end d)

-- `data[pos..pos + b.len()].copy_from_slice(b)`
abbrev pub splice : ℕ → Bytes → Bytes → Bytes
splice p b d = take p d ++ (b ++ drop (p + length b) d)

-- Where a write begins.
abbrev pub write_pos : FileState → MemFsFileNode → ℕ
write_pos s f = if s.file.append then length f.data_ else s.file.pos

abbrev pub store : Bytes → FileState → FileState
store d s = record s { tree = (update_node s.file.node_id (set_data d) s.tree).1 }

unfoldable pub write_bytes : Bytes → Run FileState FsError (Unit {0})
unfolding grow
write_bytes buf s = elim (read_file s) [
  | ok f ↦
      let p = write_pos s f in
      let end = (p + length buf) % u64_mod in
      elim (grow end f.data_) [
        | ok d ↦
            if ltb end p
            then (panic, set_pos p (store d s))
            else (ok tt, set_pos end (store (splice p buf d) s))
        | _ ↦ (panic, set_pos p s)
      ]
  | err e ↦ (err e, s)
  | panic ↦ (panic, s)
  | out_of_fuel ↦ (out_of_fuel, s)
]

-- The chunks of a `Buf` one after the other, from the position on.
unfoldable pub copy_chunks : ℕ → List Bytes → Bytes → Bytes
copy_chunks p [] d = d
copy_chunks p (b ∷ rest) d = copy_chunks (p + length b) rest (splice p b d)

-- `remaining()` is the length of all the chunks.
unfoldable pub write_buf : List Bytes → Run FileState FsError (Unit {0})
unfolding grow copy_chunks concat
write_buf chunks s = elim (read_file s) [
  | ok f ↦
      let p = write_pos s f in
      let end = (p + length (concat chunks)) % u64_mod in
      elim (grow end f.data_) [
        | ok d ↦
            if ltb end p
            then (panic, set_pos p (store d s))
            else (ok tt, set_pos end (store (copy_chunks p chunks d) s))
        | _ ↦ (panic, set_pos p s)
      ]
  | err e ↦ (err e, s)
  | panic ↦ (panic, s)
  | out_of_fuel ↦ (out_of_fuel, s)
]

-- `flush` does nothing.
unfoldable pub flush : Run FileState FsError (Unit {0})
flush = pure tt

-- From a start and a signed offset. The error is an `io::Error` that is not of the system.
unfoldable pub seek_by : ℕ → ℤ → Run FileState FsError ℕ
seek_by begin (pos n) s = let p = (begin + n) % u64_mod in (ok p, set_pos p s)
seek_by begin (negsuc n) s =
    if ltb begin (suc n)
    then (err FsError.not_implemented, s)
    else (let p = begin - suc n in (ok p, set_pos p s))

unfoldable pub seek : SeekFrom → Run FileState FsError ℕ
unfolding seek_by
seek (SeekFrom.from_start npos) s = (ok npos, set_pos npos s)
seek (SeekFrom.from_current npos) s = seek_by s.file.pos npos s
seek (SeekFrom.from_end npos) s = elim (read_file s) [
  | ok f ↦ seek_by (length f.data_) npos s
  | err e ↦ (err e, s)
  | panic ↦ (panic, s)
  | out_of_fuel ↦ (out_of_fuel, s)
]
