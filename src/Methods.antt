-- ===== src/Methods.antt =====
-- The methods and the sets of methods of src/util.rs.
use Prim.Native.Nat.{bit_and, bit_or}
use webdav_handler_rs.Prelude.{
  ℕ, ◌-◌, Bool, Option, none, some, List, [], ◌∷◌, Bytes, ◌==◌, nat_eq, list_eq, ltb, if◌then◌else◌,
  Outcome, ok, err,
}
use webdav_handler_rs.Errors.{DavError}

pub data DavMethod : Type 0 where
  head get put patch options prop_find prop_patch mk_col copy move delete lock unlock : DavMethod

-- `m as u32`
unfoldable pub bit : DavMethod → ℕ
bit head = 1
bit get = 2
bit put = 4
bit patch = 8
bit options = 16
bit prop_find = 32
bit prop_patch = 64
bit mk_col = 128
bit copy = 256
bit move = 512
bit delete = 1024
bit lock = 2048
bit unlock = 4096

-- The name of each method, as `dav_method` goes through them.
abbrev pub method_names : List (Bytes × DavMethod)
method_names =
    (b'H' ∷ b'E' ∷ b'A' ∷ b'D' ∷ [], head)
    ∷ (b'G' ∷ b'E' ∷ b'T' ∷ [], get)
    ∷ (b'P' ∷ b'U' ∷ b'T' ∷ [], put)
    ∷ (b'P' ∷ b'A' ∷ b'T' ∷ b'C' ∷ b'H' ∷ [], patch)
    ∷ (b'D' ∷ b'E' ∷ b'L' ∷ b'E' ∷ b'T' ∷ b'E' ∷ [], delete)
    ∷ (b'O' ∷ b'P' ∷ b'T' ∷ b'I' ∷ b'O' ∷ b'N' ∷ b'S' ∷ [], options)
    ∷ (b'P' ∷ b'R' ∷ b'O' ∷ b'P' ∷ b'F' ∷ b'I' ∷ b'N' ∷ b'D' ∷ [], prop_find)
    ∷ (b'P' ∷ b'R' ∷ b'O' ∷ b'P' ∷ b'P' ∷ b'A' ∷ b'T' ∷ b'C' ∷ b'H' ∷ [], prop_patch)
    ∷ (b'M' ∷ b'K' ∷ b'C' ∷ b'O' ∷ b'L' ∷ [], mk_col)
    ∷ (b'C' ∷ b'O' ∷ b'P' ∷ b'Y' ∷ [], copy)
    ∷ (b'M' ∷ b'O' ∷ b'V' ∷ b'E' ∷ [], move)
    ∷ (b'L' ∷ b'O' ∷ b'C' ∷ b'K' ∷ [], lock)
    ∷ (b'U' ∷ b'N' ∷ b'L' ∷ b'O' ∷ b'C' ∷ b'K' ∷ [], unlock)
    ∷ []

-- The value of the first name that the text is.
unfoldable pub named : {A : Type 0} → List (Bytes × A) → Bytes → Option A
named [] text = none
named ((name, x) ∷ names) text = if name == text then some x else named names text

unfoldable pub dav_method : Bytes → Outcome DavError DavMethod
unfolding named
dav_method m = elim (named method_names m) [
  | none ↦ err DavError.unknown_dav_method
  | some x ↦ ok x
]

abbrev pub u32_max : ℕ
u32_max = 4294967295

pub record DavMethodSet : Type 0 where
  pub bits : ℕ

-- `DavMethodSet::all()`, `none()` and the constants.
abbrev pub all_methods : DavMethodSet
all_methods = record { bits = u32_max }

abbrev pub no_methods : DavMethodSet
no_methods = record { bits = 0 }

unfoldable pub http_ro : DavMethodSet
unfolding bit
http_ro = record { bits = bit_or (bit_or (bit get) (bit head)) (bit options) }

unfoldable pub http_rw : DavMethodSet
unfolding http_ro
http_rw = record { bits = bit_or (DavMethodSet.bits http_ro) (bit put) }

unfoldable pub webdav_ro : DavMethodSet
unfolding http_ro
webdav_ro = record { bits = bit_or (DavMethodSet.bits http_ro) (bit prop_find) }

-- `DavMethodSet::add`, `remove` and `contains`.
unfoldable pub add : DavMethodSet → DavMethod → DavMethodSet
unfolding bit
add s m = record { bits = bit_or s.bits (bit m) }

unfoldable pub remove : DavMethodSet → DavMethod → DavMethodSet
unfolding bit
remove s m = record { bits = bit_and s.bits (u32_max - bit m) }

unfoldable pub contains : DavMethodSet → DavMethod → Bool
unfolding bit
contains s m = ltb 0 (bit_and s.bits (bit m))

-- The words that `from_vec` knows, in lower case.
abbrev pub word_bits : List (Bytes × ℕ)
word_bits =
    (b'h' ∷ b'e' ∷ b'a' ∷ b'd' ∷ [], bit head)
    ∷ (b'g' ∷ b'e' ∷ b't' ∷ [], bit get)
    ∷ (b'p' ∷ b'u' ∷ b't' ∷ [], bit put)
    ∷ (b'p' ∷ b'a' ∷ b't' ∷ b'c' ∷ b'h' ∷ [], bit patch)
    ∷ (b'd' ∷ b'e' ∷ b'l' ∷ b'e' ∷ b't' ∷ b'e' ∷ [], bit delete)
    ∷ (b'o' ∷ b'p' ∷ b't' ∷ b'i' ∷ b'o' ∷ b'n' ∷ b's' ∷ [], bit options)
    ∷ (b'p' ∷ b'r' ∷ b'o' ∷ b'p' ∷ b'f' ∷ b'i' ∷ b'n' ∷ b'd' ∷ [], bit prop_find)
    ∷ (b'p' ∷ b'r' ∷ b'o' ∷ b'p' ∷ b'p' ∷ b'a' ∷ b't' ∷ b'c' ∷ b'h' ∷ [], bit prop_patch)
    ∷ (b'm' ∷ b'k' ∷ b'c' ∷ b'o' ∷ b'l' ∷ [], bit mk_col)
    ∷ (b'c' ∷ b'o' ∷ b'p' ∷ b'y' ∷ [], bit copy)
    ∷ (b'm' ∷ b'o' ∷ b'v' ∷ b'e' ∷ [], bit move)
    ∷ (b'l' ∷ b'o' ∷ b'c' ∷ b'k' ∷ [], bit lock)
    ∷ (b'u' ∷ b'n' ∷ b'l' ∷ b'o' ∷ b'c' ∷ b'k' ∷ [], bit unlock)
    ∷ (b'h' ∷ b't' ∷ b't' ∷ b'p' ∷ b'-' ∷ b'r' ∷ b'o' ∷ [], DavMethodSet.bits http_ro)
    ∷ (b'h' ∷ b't' ∷ b't' ∷ b'p' ∷ b'-' ∷ b'r' ∷ b'w' ∷ [], DavMethodSet.bits http_rw)
    ∷ (
      b'w' ∷ b'e' ∷ b'b' ∷ b'd' ∷ b'a' ∷ b'v' ∷ b'-' ∷ b'r' ∷ b'o' ∷ [],
      DavMethodSet.bits webdav_ro,
    )
    ∷ (
      b'w' ∷ b'e' ∷ b'b' ∷ b'd' ∷ b'a' ∷ b'v' ∷ b'-' ∷ b'r' ∷ b'w' ∷ [],
      DavMethodSet.bits all_methods,
    )
    ∷ []

-- `from_vec`; what `to_lowercase` of the standard library returns is a parameter, and an unknown word
-- the error.
module _ (to_lowercase : Bytes → Bytes) where
  unfoldable pub from_words : ℕ → List Bytes → Outcome Bytes DavMethodSet
  unfolding named
  from_words m [] = ok (record { bits = m })
  from_words m (w ∷ words) = elim (named word_bits (to_lowercase w)) [
    | none ↦ err w
    | some b ↦ from_words (bit_or m b) words
  ]

  unfoldable pub from_vec : List Bytes → Outcome Bytes DavMethodSet
  unfolding from_words
  from_vec v = from_words 0 v
