-- ===== src/MemFs/OpenFile/Written.antt =====
-- Writes to an open file of src/memfs.rs, in chunks or as a whole, and reads after them.
use webdav_handler_rs.Prelude.{
  ℕ, ◌+◌, ◌-◌, ◌%◌, ◌≤◌, ◌<◌, ◌≡◌, refl, sym, ap, ◌∙◌, false, List, ◌++◌, Bytes, nat_eq, arith, ltb,
  min, length, concat, length-append, take-length_append, drop-length_append, inl, inr, Bool-cases,
  Outcome, ok, err, panic, out_of_fuel,
}
use webdav_handler_rs.Errors.{FsError}
use webdav_handler_rs.Tree.{u64_mod}
use webdav_handler_rs.MemFs.Nodes.{MemFsFileNode}
use webdav_handler_rs.MemFs.OpenFile.{
  FileState, SeekFrom, read_file, set_pos, slice, read_bytes, isize_max, extended, splice,
  write_pos, store, write_bytes, write_buf, seek,
}
use webdav_handler_rs.MemFs.OpenFile.Spliced.{
  splice-middle, parts, copy_chunks-splice, length-extended, read_file-store, grow_cases,
}

-- `write_buf` of a buffer in several chunks of less than 2^64 bytes does what `write_bytes` of
-- all its bytes does, on every branch.
pub write_buf-write_bytes :
    (chunks : List Bytes) (s : FileState)
    → length (concat chunks) < u64_mod
    → write_buf chunks s ≡ write_bytes (concat chunks) s
unfolding write_buf write_bytes
write_buf-write_bytes chunks s small = by_file (read_file s) refl
  where
    fits :
        (p n : ℕ) (d : Bytes)
        → n < u64_mod
        → ltb ((p + n) % u64_mod) p ≡ false
        → p + n ≤ length (extended ((p + n) % u64_mod) d)
    fits p n d h k = omega (arith, length-extended ((p + n) % u64_mod) d, not_wrapped p n h k)
      where
        not_wrapped :
            (a b : ℕ) → b < u64_mod → ltb ((a + b) % u64_mod) a ≡ false → (a + b) % u64_mod ≡ a + b
        not_wrapped a b l q = ground arith

    by_file :
        (o : Outcome FsError MemFsFileNode)
        → read_file s ≡ o
        → write_buf chunks s ≡ write_bytes (concat chunks) s
    by_file (ok f) e =
        elim (Bool-cases
          (ltb ((write_pos s f + length (concat chunks)) % u64_mod) (write_pos s f))) [
            | inl wrapped ↦
                elim (grow_cases ((write_pos s f + length (concat chunks)) % u64_mod) f.data_) [
                  | inl grown ↦ rw (write_buf, write_bytes, e, grown, wrapped) refl
                  | inr full ↦ rw (write_buf, write_bytes, e, full.0) refl
                ]
            | inr straight ↦
                elim (grow_cases ((write_pos s f + length (concat chunks)) % u64_mod) f.data_) [
                  | inr full ↦ rw (write_buf, write_bytes, e, full.0) refl
                  | inl grown ↦
                      rw (write_buf, write_bytes, e, grown, straight)
                        (ap
                          (λ d. (
                            ok tt,
                            set_pos ((write_pos s f + length (concat chunks)) % u64_mod)
                                (store d s),
                          ))
                          (copy_chunks-splice (write_pos s f) chunks
                            (extended ((write_pos s f + length (concat chunks)) % u64_mod) f.data_)
                            (fits (write_pos s f) (length (concat chunks)) f.data_ small straight)))
                ]
          ]
    by_file (err x) e = rw (write_buf, write_bytes, e) refl
    by_file panic e = rw (write_buf, write_bytes, e) refl
    by_file out_of_fuel e = rw (write_buf, write_bytes, e) refl

slice-middle : (xs b ys : Bytes) → slice (xs ++ (b ++ ys)) (length xs) (length xs + length b) ≡ b
slice-middle xs b ys =
    let count : length xs + length b - length xs ≡ length b = omega arith in
    rw (count, drop-length_append xs (b ++ ys)) (take-length_append b ys)

-- Where the written bytes stand.
read_at :
    (p : ℕ) (b d : Bytes)
    → p + length b ≤ length d
    → (p + length b ≤ length (splice p b d)) × (slice (splice p b d) p (p + length b) ≡ b)
read_at p b d fits =
    let q = parts p (length b) d fits in
    let laid : splice p b d ≡ q.before ++ (b ++ q.after) =
      ap (splice p b) q.whole
      ∙ ap (λ k. splice k b (q.before ++ (q.middle ++ q.after))) (sym q.length_before)
      ∙ splice-middle q.before q.middle q.after b q.length_middle in
    (
      omega (
        arith,
        ap length laid,
        length-append q.before (b ++ q.after),
        length-append b q.after,
        q.length_before,
      ),
      ap (λ z. slice z p (p + length b)) laid
          ∙ ap (λ k. slice (q.before ++ (b ++ q.after)) k (k + length b)) (sym q.length_before)
          ∙ slice-middle q.before b q.after,
    )

write_bytes-ok :
    (buf : Bytes) (s : FileState) (f : MemFsFileNode)
    → read_file s ≡ ok f
    → write_pos s f + length buf ≤ isize_max
    → write_bytes buf s ≡ (
      ok tt,
      set_pos
          (write_pos s f + length buf)
          (store (splice (write_pos s f) buf (extended (write_pos s f + length buf) f.data_)) s),
    )
unfolding write_bytes
write_bytes-ok buf s f h room = elim (grow_cases (write_pos s f + length buf) f.data_) [
  | inl grown ↦
      rw
        (
          write_bytes,
          h,
          kept (write_pos s f) (length buf) room,
          grown,
          kept (write_pos s f) (length buf) room,
          above (write_pos s f) (length buf),
        )
        refl
  | inr (_, beyond) ↦ absurd (omega (arith, beyond, room))
]
  where
    kept : (a b : ℕ) → a + b ≤ isize_max → (a + b) % u64_mod ≡ a + b
    kept a b l = ground arith

    above : (a b : ℕ) → ltb (a + b) a ≡ false
    above a b = ground arith

read_bytes-ok :
    (count : ℕ) (u : FileState) (g : MemFsFileNode)
    → read_file u ≡ ok g
    → u.file.pos + count ≤ length g.data_
    → u.file.pos + count < u64_mod
    → (read_bytes count u).0 ≡ ok (slice g.data_ u.file.pos (u.file.pos + count))
unfolding read_bytes
read_bytes-ok count u g h fits room =
    rw
      (
        read_bytes,
        h,
        kept u.file.pos count room,
        least u.file.pos count (length g.data_) fits,
        least_sum u.file.pos count (length g.data_) fits,
        above u.file.pos count,
      )
      refl
  where
    kept : (a b : ℕ) → a + b < u64_mod → (a + b) % u64_mod ≡ a + b
    kept a b l = ground arith

    least : (a b n : ℕ) → a + b ≤ n → min a n ≡ a
    least a b n l = omega arith

    least_sum : (a b n : ℕ) → a + b ≤ n → min (a + b) n ≡ a + b
    least_sum a b n l = omega arith

    above : (a b : ℕ) → ltb (a + b) a ≡ false
    above a b = ground arith

read_file-set_pos : (p q : ℕ) (s : FileState) → read_file (set_pos p (set_pos q s)) ≡ read_file s
unfolding read_file
read_file-set_pos p q s = refl

-- What `write_bytes` has put into an open file, from its position or the end in append mode, is
-- what `read_bytes` returns after a `seek` to where the write began; the write succeeds if it
-- ends within the largest capacity of a vector, 2^63 - 1 bytes.
pub write_bytes-read_bytes :
    (buf : Bytes) (s : FileState) (f : MemFsFileNode)
    → read_file s ≡ ok f
    → write_pos s f + length buf ≤ isize_max
    → ((write_bytes buf s).0 ≡ ok tt)
      × ((read_bytes
            (length buf)
            (seek (SeekFrom.from_start (write_pos s f)) (write_bytes buf s).1).1).0
          ≡ ok buf)
unfolding seek
write_bytes-read_bytes buf s f h room =
    let p : ℕ = write_pos s f in
    let d : Bytes = splice p buf (extended (p + length buf) f.data_) in
    let (long, back) =
      read_at p buf (extended (p + length buf) f.data_)
        (length-extended (p + length buf) f.data_) in
    let run = write_bytes-ok buf s f h room in
    (
      ap (λ x. x.0) run,
      ap (λ x. (read_bytes (length buf) (set_pos p x.1)).0) run
          ∙ read_bytes-ok (length buf) (set_pos p (set_pos (p + length buf) (store d s)))
              (record f { data_ = d })
              (read_file-set_pos p (p + length buf) (store d s) ∙ read_file-store s f d h) long
              (omega (arith, room))
          ∙ ap ok back,
    )
