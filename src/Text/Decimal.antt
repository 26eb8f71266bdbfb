-- ===== src/Text/Decimal.antt =====
-- The decimal form of a number, printed and read.
use webdav_handler_rs.Prelude.{
  ℕ, zero, suc, ◌+◌, ◌-◌, ◌*◌, ◌/◌, ◌%◌, ◌<◌, ◌≡◌, refl, sym, ◌∙◌, ap, inl, inr, Bool, true, false,
  some, [], ◌∷◌, ◌++◌, Bytes, Bool-cases, ltb, any, any-append, arith,
}
use webdav_handler_rs.Text.{is_digit, parse_digits, parse_uint, digits, decimal}

-- A digit more is ten times the number and the digit.
parse_digits-snoc :
    (m acc : ℕ) (cs : Bytes) (d n : ℕ)
    → d < 10
    → parse_digits m acc cs ≡ some n
    → n * 10 + d < m
    → parse_digits m acc (cs ++ (b'0' + d) ∷ []) ≡ some (n * 10 + d)
unfolding parse_digits is_digit
parse_digits-snoc m acc [] d n small h bound = ground arith
parse_digits-snoc m acc (c ∷ cs) d n small h bound =
    ground (arith, parse_digits-snoc m (acc * 10 + (c - b'0')) cs d n)

pub parse_digits-digits :
    (fuel m n : ℕ) → n < fuel → n < m → parse_digits m 0 (digits fuel n) ≡ some n
unfolding digits
parse_digits-digits zero m n enough bound = elim enough [ ]
parse_digits-digits (suc fuel) m n enough bound = elim (Bool-cases (ltb n 10)) [
  | inl one ↦ rw one (
      parse_digits-snoc m 0 [] (n % 10) 0 (omega arith) (unfold parse_digits in refl) (ground arith)
      ∙ ap some (ground arith))
  | inr more ↦ rw more (
      parse_digits-snoc m 0 (digits fuel (n / 10)) (n % 10) (n / 10) (omega arith)
        (parse_digits-digits fuel m (n / 10) (ground arith) (ground arith)) (omega arith)
      ∙ ap some (omega arith))
]

-- The form is a digit, and then perhaps more.
digits-first :
    (fuel n : ℕ)
    → n < fuel
    → (c : ℕ) × (cs : Bytes) × (digits fuel n ≡ c ∷ cs) × (is_digit c ≡ true)
unfolding digits is_digit
digits-first zero n enough = elim enough [ ]
digits-first (suc fuel) n enough = elim (Bool-cases (ltb n 10)) [
  | inl one ↦ (b'0' + n % 10, [], rw one, ground arith)
  | inr more ↦
      let (c, cs, e, d) = digits-first fuel (n / 10) (ground arith) in
      (c, cs ++ (b'0' + n % 10) ∷ [], rw (more, e), d)
]

-- Without a plus sign.
parse_uint-digit :
    (m c : ℕ) (cs : Bytes) → is_digit c ≡ true → parse_uint m (c ∷ cs) ≡ parse_digits m 0 (c ∷ cs)
unfolding parse_uint is_digit
parse_uint-digit m c [] d = ground arith
parse_uint-digit m c (x ∷ xs) d = ground arith

pub parse_uint-decimal : (m n : ℕ) → n < m → parse_uint m (decimal n) ≡ some n
unfolding decimal
parse_uint-decimal m n bound =
    let (c, cs, e, d) = digits-first (n + 1) n (omega arith) in
    ap (parse_uint m) e
    ∙ parse_uint-digit m c cs d
    ∙ ap (parse_digits m 0) (sym e)
    ∙ parse_digits-digits (n + 1) m n (omega arith) bound

-- Bytes that are no digits do not show in the form.
pub any-digits :
    (p : ℕ → Bool)
    → ((c : ℕ) → is_digit c ≡ true → p c ≡ false)
    → (fuel n : ℕ) → any p (digits fuel n) ≡ false
unfolding digits any
any-digits p h zero n = refl
any-digits p h (suc fuel) n = elim (Bool-cases (ltb n 10)) [
  | inl one ↦ rw one (ground (arith, h (b'0' + n % 10) (last n)))
  | inr more ↦ rw more (
      any-append p (digits fuel (n / 10)) ((b'0' + n % 10) ∷ [])
      ∙ ground (arith, h (b'0' + n % 10) (last n), any-digits p h fuel (n / 10)))
]
  where
    last : (k : ℕ) → is_digit (b'0' + k % 10) ≡ true
    last k = unfold is_digit in ground arith

pub decimal-first : (n : ℕ) → (c : ℕ) × (cs : Bytes) × (decimal n ≡ c ∷ cs) × (is_digit c ≡ true)
unfolding decimal
decimal-first n = digits-first (n + 1) n (omega arith)
