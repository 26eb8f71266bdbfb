-- ===== src/DavHeaders/UpdateRange/RoundTrip.antt =====
-- The header X-Update-Range of src/davheaders.rs, encoded and decoded.
use webdav_handler_rs.Prelude.{
  ℕ, ◌+◌, ◌<◌, ◌≡◌, ◌≢◌, refl, ap, ◌∙◌, Bool, true, false, [], ◌∷◌, ◌++◌, Bytes, ◌==◌, nat_eq,
  list_eq, any, arith, if◌then◌else◌, ok, err, and_then, list_beq, ltb,
}
use webdav_handler_rs.DavPath.Segments.{starts_with}
use webdav_handler_rs.Tree.{u64_mod}
use webdav_handler_rs.Text.{is_digit, split_on, decimal, contains}
use webdav_handler_rs.Text.Split.{split_on-one, split_on-two}
use webdav_handler_rs.Text.Decimal.{any-digits, parse_uint-decimal, decimal-first}
use webdav_handler_rs.DavHeaders.{invalid, one, to_str}
use webdav_handler_rs.DavHeaders.UpdateRange.{
  XUpdateRange, from_to, all_from, last, append, append_word, bytes_prefix, read_num, read_pair,
  read, decode, show,
}

no_dash : (n : ℕ) → contains (decimal n) b'-' ≡ false
unfolding decimal
no_dash n = any-digits (λ x. x == b'-') (λ c d. unfold is_digit in ground (arith, d)) (n + 1) n

decimal-ne-nil : (n : ℕ) → (decimal n == []) ≡ false
decimal-ne-nil n =
    let (c, cs, e, _) = decimal-first n in ap (λ s. s == []) e ∙ (unfold list_beq in refl)

abbrev pub IsU64 : XUpdateRange → Type 0
IsU64 append = Unit
IsU64 (from_to b e) = (b < u64_mod) × (e < u64_mod)
IsU64 (all_from b) = b < u64_mod
IsU64 (last e) = e < u64_mod

abbrev pub written : XUpdateRange → Bytes
written append = append_word
written r = bytes_prefix ++ show r

read_num-decimal : (n : ℕ) → n < u64_mod → read_num (decimal n) ≡ ok n
unfolding read_num
read_num-decimal n h = rw (parse_uint-decimal u64_mod n h)

split_on-show :
    (b : ℕ) (rest : Bytes)
    → split_on b'-' (decimal b ++ b'-' ∷ rest) ≡ decimal b ∷ split_on b'-' rest
split_on-show b rest = split_on-two b'-' (decimal b) rest (no_dash b)

read-prefixed : (s : Bytes) → read (bytes_prefix ++ s) ≡ read_pair (split_on b'-' s)
unfolding read list_beq starts_with
read-prefixed s = refl

-- `encode` leaves the prefix out, which `decode` wants.
read-unprefixed : (c : ℕ) (s : Bytes) → ltb c b'a' ≡ true → read (c ∷ s) ≡ err invalid
unfolding read list_beq starts_with
read-unprefixed c s h = ground arith

read-show : (r : XUpdateRange) → r ≢ append → read (show r) ≡ err invalid
unfolding show
read-show append other = absurd (other refl)
read-show (last e) other = read-unprefixed b'-' (decimal e) refl
read-show (all_from b) other =
    let (c, cs, e, d) = decimal-first b in
    ap (λ s. read (s ++ b'-' ∷ [])) e ∙ read-unprefixed c _ (unfold is_digit in ground (arith, d))
read-show (from_to b n) other =
    let (c, cs, e, d) = decimal-first b in
    ap (λ s. read (s ++ b'-' ∷ decimal n)) e
    ∙ read-unprefixed c _ (unfold is_digit in ground (arith, d))

read-written : (r : XUpdateRange) → IsU64 r → read (written r) ≡ ok r
unfolding read_pair show
read-written append h = unfold read list_beq in refl
read-written (from_to b n) h =
    read-prefixed (decimal b ++ b'-' ∷ decimal n)
    ∙ ap read_pair (
        split_on-show b (decimal n)
        ∙ ap (λ v. decimal b ∷ v) (split_on-one b'-' (decimal n) (no_dash n)))
    ∙ rw (decimal-ne-nil b, decimal-ne-nil n, read_num-decimal b h.0, read_num-decimal n h.1) refl
read-written (all_from b) h =
    read-prefixed (decimal b ++ b'-' ∷ [])
    ∙ ap read_pair
        (split_on-show b [] ∙ ap (λ v. decimal b ∷ v) (split_on-one b'-' [] (unfold any in refl)))
    ∙ rw (decimal-ne-nil b, read_num-decimal b h) (unfold list_beq in refl)
read-written (last n) h =
    read-prefixed (b'-' ∷ decimal n)
    ∙ ap read_pair (
        split_on-two b'-' [] (decimal n) (unfold any in refl)
        ∙ ap (λ v. [] ∷ v) (split_on-one b'-' (decimal n) (no_dash n)))
    ∙ rw (decimal-ne-nil n, read_num-decimal n h) (unfold list_beq in refl)

-- A range of numbers below 2^64, written as text behind `bytes=`, or the word `append`, is
-- decoded to the range; as `encode` writes it, without `bytes=`, any range but `append` is
-- refused.
pub decode-written :
    (is_text : Bytes → Bool) (r : XUpdateRange)
    → IsU64 r
    → is_text (written r) ≡ true
    → (decode is_text (written r ∷ []) ≡ ok r)
      × (r ≢ append → decode is_text (show r ∷ []) ≡ err invalid)
unfolding decode one to_str
decode-written is_text r h t = (rw t (read-written r h), λ other. refused (is_text (show r)) other)
  where
    refused :
        (b : Bool)
        → r ≢ append
        → and_then (if b then ok (show r) else err invalid) read ≡ err invalid
    refused true other = read-show r other
    refused false other = refl
