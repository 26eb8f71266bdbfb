-- ===== src/Dispatch/Read.antt =====
-- `read_request` of src/davhandler.rs against the concatenation of the body.
use webdav_handler_rs.Prelude.{
  ℕ, ◌+◌, ◌≤◌, ◌<◌, ◌≡◌, refl, sym, ap, ◌∙◌, inl, inr, arith, true, false, Bool-cases, List, [],
  ◌∷◌, ◌++◌, Bytes, ltb, length, length-append, concat, map, if◌then◌else◌, ok, err, and_then,
}
use mathlib.Core.List.{append-nil, append_assoc}
use webdav_handler_rs.Errors.{DavError}
use webdav_handler_rs.Dispatch.{pieces, read_pieces, read_all, read_request}

ltb_over : (m n : ℕ) → m < n → ltb m n ≡ true
ltb_over m n h = ground arith

ltb_within : (m n : ℕ) → n ≤ m → ltb m n ≡ false
ltb_within m n h = ground arith

-- The bytes of some buffers.
abbrev pub body_bytes : List (List Bytes) → Bytes
body_bytes [] = []
body_bytes (bs ∷ bufs) = concat bs ++ body_bytes bufs

read_pieces_within :
    (max_size : ℕ) (d : Bytes) (bs : List Bytes)
    → length d + length (concat bs) ≤ max_size
    → read_pieces max_size d bs ≡ ok (d ++ concat bs)
unfolding read_pieces concat
read_pieces_within max_size d [] h = ap ok (sym (append-nil d))
read_pieces_within max_size d (b ∷ bs) h =
    rw (ltb_within max_size (length d + length (b ++ concat bs)) h) (
      read_pieces_within max_size (d ++ b) bs
        (omega (arith, h, length-append d b, length-append b (concat bs)))
      ∙ ap ok (append_assoc d b (concat bs)))

read_pieces_over :
    (max_size : ℕ) (d : Bytes) (bs : List Bytes)
    → length d ≤ max_size
    → max_size < length d + length (concat bs)
    → read_pieces max_size d bs ≡ err (DavError.status 413)
unfolding read_pieces concat
read_pieces_over max_size d [] k h = absurd (omega (arith, k, h))
read_pieces_over max_size d (b ∷ bs) k h =
    rw (ltb_over max_size (length d + length (b ++ concat bs)) h) refl

read_all_within :
    (max_size : ℕ) (d : Bytes) (bufs : List (List Bytes))
    → length d + length (body_bytes bufs) ≤ max_size
    → read_all max_size d (map pieces bufs) ≡ ok (d ++ body_bytes bufs)
unfolding read_all
read_all_within max_size d [] h = ap ok (sym (append-nil d))
read_all_within max_size d (bs ∷ bufs) h =
    ap (λ o. and_then o (λ d'. read_all max_size d' (map pieces bufs)))
      (read_pieces_within max_size d bs
        (omega (arith, h, length-append (concat bs) (body_bytes bufs))))
    ∙ read_all_within max_size (d ++ concat bs) bufs
        (omega (arith, h, length-append (concat bs) (body_bytes bufs), length-append d (concat bs)))
    ∙ ap ok (append_assoc d (concat bs) (body_bytes bufs))

read_all_over :
    (max_size : ℕ) (d : Bytes) (bufs : List (List Bytes))
    → length d ≤ max_size
    → max_size < length d + length (body_bytes bufs)
    → read_all max_size d (map pieces bufs) ≡ err (DavError.status 413)
unfolding read_all
read_all_over max_size d [] k h = absurd (omega (arith, k, h))
read_all_over max_size d (bs ∷ bufs) k h =
    elim (Bool-cases (ltb max_size (length d + length (concat bs)))) [
      | inl over ↦
          ap (λ o. and_then o (λ d'. read_all max_size d' (map pieces bufs)))
            (read_pieces_over max_size d bs k (above max_size (length d + length (concat bs)) over))
      | inr within ↦
          ap (λ o. and_then o (λ d'. read_all max_size d' (map pieces bufs)))
            (read_pieces_within max_size d bs
              (below max_size (length d + length (concat bs)) within))
          ∙ read_all_over max_size (d ++ concat bs) bufs
              (omega (
                arith,
                length-append d (concat bs),
                below max_size (length d + length (concat bs)) within,
              ))
              (omega (
                arith,
                h,
                length-append (concat bs) (body_bytes bufs),
                length-append d (concat bs),
              ))
    ]
  where
    above : (m n : ℕ) → ltb m n ≡ true → m < n
    above m n e = ground arith

    below : (m n : ℕ) → ltb m n ≡ false → n ≤ m
    below m n e = ground arith

-- Of a body without a failure, `read_request` returns the concatenation of all its pieces if that
-- is not longer than the bound, and otherwise the status 413.
pub read_request_lem :
    (bufs : List (List Bytes)) (max_size : ℕ)
    → read_request (map pieces bufs) max_size ≡ (
        if ltb max_size (length (body_bytes bufs))
        then err (DavError.status 413)
        else ok (body_bytes bufs))
unfolding read_request
read_request_lem bufs max_size = elim (Bool-cases (ltb max_size (length (body_bytes bufs)))) [
  | inl over ↦ rw over (
      read_all_over max_size [] bufs (omega arith)
        (omega (arith, above max_size (length (body_bytes bufs)) over)))
  | inr within ↦ rw within (
      read_all_within max_size [] bufs
        (omega (arith, below max_size (length (body_bytes bufs)) within)))
]
  where
    above : (m n : ℕ) → ltb m n ≡ true → m < n
    above m n e = ground arith

    below : (m n : ℕ) → ltb m n ≡ false → n ≤ m
    below m n e = ground arith
