-- ===== src/Text.antt =====
-- Byte strings as `str` and `String` of the standard library treat them, as far as src/davheaders.rs
-- and the handlers use them: UTF-8, white space, `split`, `trim`, decimal numbers.
pub mod Decimal
pub mod Split
use webdav_handler_rs.Prelude.{
  ℕ, zero, suc, ◌+◌, ◌-◌, ◌*◌, ◌/◌, ◌%◌, Bool, true, false, not, ◌&&◌, ◌||◌, Option, none, some,
  List, [], ◌∷◌, ◌++◌, Bytes, ◌==◌, nat_eq, ltb, leb, length, take, drop, last?, any, if◌then◌else◌,
  Outcome, ok, panic,
}
use webdav_handler_rs.DavPath.Segments.{cons_head}

-- `s.contains(c)`
abbrev pub contains : Bytes → ℕ → Bool
contains s c = any (λ x. x == c) s

-- `s.ends_with(c)`
unfoldable pub ends_with : Bytes → ℕ → Bool
ends_with s c = elim (last? s) [ none ↦ false | some x ↦ x == c ]

-- `&s[lo..hi]`
unfoldable pub slice {κ} : {E : Type κ} → Bytes → ℕ → ℕ → Outcome E Bytes
slice s lo hi = if leb lo hi && leb hi (length s) then ok (take (hi - lo) (drop lo s)) else panic

-- `s.split(c)`
unfoldable pub split_on : ℕ → Bytes → List Bytes
split_on sep [] = [] ∷ []
split_on sep (c ∷ cs) = if c == sep then [] ∷ split_on sep cs else cons_head c (split_on sep cs)

-- `parts.join(sep)`
unfoldable pub join_with : Bytes → List Bytes → Bytes
join_with sep [] = []
join_with sep (s ∷ []) = s
join_with sep (s ∷ t ∷ ss) = s ++ (sep ++ join_with sep (t ∷ ss))

-- `char::is_whitespace`, on ASCII.
unfoldable pub is_space : ℕ → Bool
is_space c = c == b' ' || (leb 9 c && leb c 13)

unfoldable pub trim_start : Bytes → Bytes
trim_start [] = []
trim_start (c ∷ cs) = if is_space c then trim_start cs else c ∷ cs

unfoldable pub trim_end : Bytes → Bytes
trim_end [] = []
trim_end (c ∷ cs) = elim (trim_end cs) [
  | [] ↦ if is_space c then [] else c ∷ []
  | d ∷ ds ↦ c ∷ d ∷ ds
]

-- `s.trim()`
abbrev pub trim : Bytes → Bytes
trim s = trim_start (trim_end s)

-- What a first byte of a code point asks for: how many bytes more, and the range of the next one.
unfoldable pub lead : ℕ → Option (ℕ × ℕ × ℕ)
lead c =
    if ltb c 0x80
    then some (0, 0x80, 0xBF)
    else if ltb c 0xC2
    then none
    else if ltb c 0xE0
    then some (1, 0x80, 0xBF)
    else if c == 0xE0
    then some (2, 0xA0, 0xBF)
    else if c == 0xED
    then some (2, 0x80, 0x9F)
    else if ltb c 0xF0
    then some (2, 0x80, 0xBF)
    else if c == 0xF0
    then some (3, 0x90, 0xBF)
    else if ltb c 0xF4
    then some (3, 0x80, 0xBF)
    else if c == 0xF4
    then some (3, 0x80, 0x8F)
    else none

unfoldable pub utf8_from : ℕ → ℕ → ℕ → Bytes → Bool
utf8_from zero lo hi [] = true
utf8_from (suc n) lo hi [] = false
utf8_from zero lo hi (c ∷ cs) = elim (lead c) [ none ↦ false | some (n, l, h) ↦ utf8_from n l h cs ]
utf8_from (suc n) lo hi (c ∷ cs) = leb lo c && leb c hi && utf8_from n 0x80 0xBF cs

-- `str::from_utf8(s).is_ok()`
abbrev pub is_utf8 : Bytes → Bool
is_utf8 s = utf8_from 0 0x80 0xBF s

unfoldable pub is_digit : ℕ → Bool
is_digit c = leb b'0' c && leb c b'9'

-- The digits of a number below `m`; `acc` is the number of those read so far.
unfoldable pub parse_digits : ℕ → ℕ → Bytes → Option ℕ
unfolding is_digit
parse_digits m acc [] = some acc
parse_digits m acc (c ∷ cs) =
    let rest = parse_digits m (acc * 10 + (c - b'0')) cs in
    if is_digit c && ltb (acc * 10 + (c - b'0')) m then rest else none

-- `s.parse()` of an unsigned integer below `m`: a plus sign is allowed.
unfoldable pub parse_uint : ℕ → Bytes → Option ℕ
parse_uint m [] = none
parse_uint m (c ∷ []) = if c == b'+' then none else parse_digits m 0 (c ∷ [])
parse_uint m (c ∷ d ∷ ds) =
    if c == b'+' then parse_digits m 0 (d ∷ ds) else parse_digits m 0 (c ∷ d ∷ ds)

-- The decimal digits of `n`, with more fuel than there are digits.
unfoldable pub digits : ℕ → ℕ → Bytes
digits zero n = []
digits (suc fuel) n =
    let more = digits fuel (n / 10) in (if ltb n 10 then [] else more) ++ (b'0' + n % 10) ∷ []

-- `format!("{}", n)`
unfoldable pub decimal : ℕ → Bytes
unfolding digits
decimal n = digits (n + 1) n
