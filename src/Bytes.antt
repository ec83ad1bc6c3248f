-- ===== src/Bytes.antt =====
-- Texts as the socket carries them: bytes, the decimal text of an integer, `Number` on such a text,
-- and the search for the end of a line.
pub mod Numerals
pub mod Lines
use Prim.Native.Char.{code}
use Prim.Native.Nat.{compare, Ordering}
use supply_chain_mangement_s.Common.{
  ℕ, zero, suc, ◌+◌, ◌-◌, ◌*◌, ◌/◌, ◌%◌, ℤ, pos, negsuc, ltb, String, Bool, true, false, ◌&&◌, ◌||◌,
  Option, none, some, List, [], ◌∷◌, ◌++◌, if◌then◌else◌,
}

abbrev pub Bytes : Type 0
Bytes = List ℕ

infix 50 ◌===◌
abbrev pub ◌===◌ : ℕ → ℕ → Bool
a === b = elim (compare a b) [ Ordering.eq ↦ true | _ ↦ false ]

-- The bytes of a text in ASCII.
abbrev pub codes : String → Bytes
codes String.[] = []
codes (String.◌∷◌ c s) = code c ∷ codes s

abbrev pub carriage_return : ℕ
carriage_return = b'\r'

abbrev pub line_feed : ℕ
line_feed = b'\n'

-- `\r\n` and what follows it.
abbrev pub crlf : Bytes → Bytes
crlf rest = carriage_return ∷ line_feed ∷ rest

-- The digits of `n`, those of its tenth first; fuel `n` is enough.
unfoldable pub digits_from : ℕ → ℕ → Bytes
digits_from zero n = (b'0' + n % 10) ∷ []
digits_from (suc fuel) n =
    let front = digits_from fuel (n / 10) in
    if ltb n 10 then (b'0' + n % 10) ∷ [] else front ++ (b'0' + n % 10) ∷ []

unfoldable pub digits : ℕ → Bytes
unfolding digits_from
digits n = digits_from n n

-- `String(n)`
unfoldable pub signed : ℤ → Bytes
unfolding digits
signed (pos n) = digits n
signed (negsuc n) = b'-' ∷ digits (suc n)

abbrev pub is_digit : ℕ → Bool
is_digit c = ltb 47 c && ltb c 58

-- The number that decimal digits stand for, after digits that stand for `n`.
unfoldable pub read_digits : ℕ → Bytes → Option ℕ
read_digits n [] = some n
read_digits n (c ∷ s) = if is_digit c then read_digits (n * 10 + (c - b'0')) s else none

abbrev pub nonnegative : Option ℕ → Option ℤ
nonnegative none = none
nonnegative (some n) = some (pos n)

abbrev pub negated : Option ℕ → Option ℤ
negated none = none
negated (some zero) = some (pos 0)
negated (some (suc n)) = some (negsuc n)

-- `Number(text)` on an optional minus sign and decimal digits, and 0 for the empty text; `none` is
-- `NaN`. The other spellings that `Number` reads are not sent by a Redis server, and count as `NaN`.
unfoldable pub number : Bytes → Option ℤ
unfolding read_digits
number [] = some (pos 0)
number (c ∷ []) = nonnegative (read_digits 0 (c ∷ []))
number (c ∷ d ∷ s) =
    if c === b'-' then negated (read_digits 0 (d ∷ s)) else nonnegative (read_digits 0 (c ∷ d ∷ s))

abbrev pub in_front : ℕ → Option (Bytes × Bytes) → Option (Bytes × Bytes)
in_front c none = none
in_front c (some (line, rest)) = some (c ∷ line, rest)

-- The bytes before the first `\r\n`, and those after it.
unfoldable pub cut_line : Bytes → Option (Bytes × Bytes)
cut_line [] = none
cut_line (c ∷ []) = none
cut_line (c ∷ d ∷ rest) =
    let later = cut_line (d ∷ rest) in
    if c === carriage_return && d === line_feed then some ([], rest) else in_front c later
