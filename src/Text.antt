-- ===== src/Text.antt =====
-- Texts as the code takes them apart and builds them: `split` on one character, the decimal text of
-- a number, and `Number` on decimal digits.
pub mod Decimal
pub mod Split
use Prim.Native.Char.{Char, code}
use Prim.Native.String.append
use Prim.Native.String.{◌++◌ as join}
use supply_chain_mangement_s.Common.{
  ℕ, zero, suc, ◌+◌, ◌-◌, ◌*◌, ◌/◌, ◌%◌, String, ◌≡◌, ◌∙◌, refl, ap, Bool, true, false, ◌||◌,
  Option, none, some, List, [], ◌∷◌, ltb, ◌==◌, eq_refl, arith, if◌then◌else◌,
}

abbrev pub is_char : Char → Char → Bool
is_char c d = String.◌∷◌ c String.[] == String.◌∷◌ d String.[]

-- `text.includes(sep)`
abbrev pub has_char : Char → String → Bool
has_char sep String.[] = false
has_char sep (String.◌∷◌ c s) = is_char c sep || has_char sep s

-- A text that counts as true: present and not empty.
abbrev pub truthy : Option String → Bool
truthy none = false
truthy (some String.[]) = false
truthy (some (String.◌∷◌ c s)) = true

abbrev pub prepend : Char → List String → List String
prepend c [] = String.◌∷◌ c String.[] ∷ []
prepend c (part ∷ parts) = String.◌∷◌ c part ∷ parts

-- `text.split(sep)`
unfoldable pub split : Char → String → List String
split sep String.[] = String.[] ∷ []
split sep (String.◌∷◌ c s) =
    let parts = split sep s in if is_char c sep then String.[] ∷ parts else prepend c parts

-- A text without the separator is one part, and in front of a separator it is the first part.
pub split-one : (sep : Char) (s : String) → has_char sep s ≡ false → split sep s ≡ s ∷ []
unfolding split
split-one sep String.[] h = refl
split-one sep (String.◌∷◌ c s) h = ground (arith, h, split-one sep s (ground (arith, h)))

pub split-join :
    (sep : Char) (a b : String)
    → has_char sep a ≡ false
    → split sep (join a (String.◌∷◌ sep b)) ≡ a ∷ split sep b
unfolding split
split-join sep String.[] b h =
    ap (split sep) (append.nil (String.◌∷◌ sep b)) ∙ rw (eq_refl (String.◌∷◌ sep String.[])) refl
split-join sep (String.◌∷◌ c s) b h =
    ap (split sep) (append.cons c s (String.◌∷◌ sep b))
    ∙ ground (arith, h, split-join sep s b (ground (arith, h)))

-- One decimal digit.
unfoldable pub digit : ℕ → Char
digit zero = "0"
digit (suc zero) = "1"
digit (suc (suc zero)) = "2"
digit (suc (suc (suc zero))) = "3"
digit (suc (suc (suc (suc zero)))) = "4"
digit (suc (suc (suc (suc (suc zero))))) = "5"
digit (suc (suc (suc (suc (suc (suc zero)))))) = "6"
digit (suc (suc (suc (suc (suc (suc (suc zero))))))) = "7"
digit (suc (suc (suc (suc (suc (suc (suc (suc zero)))))))) = "8"
digit _ = "9"

-- The decimal text of `n`, the digits of its tenth first; fuel `n` is enough.
unfoldable pub decimal_from : ℕ → ℕ → String
unfolding digit
decimal_from zero n = String.◌∷◌ (digit n) String.[]
decimal_from (suc fuel) n =
    let front = decimal_from fuel (n / 10) in
    if ltb n 10
    then String.◌∷◌ (digit n) String.[]
    else join front (String.◌∷◌ (digit (n % 10)) String.[])

unfoldable pub decimal : ℕ → String
unfolding decimal_from
decimal n = decimal_from n n

abbrev pub digit_value : Char → Option ℕ
digit_value c = if ltb (code c) 48 || ltb 57 (code c) then none else some (code c - 48)

-- The number that decimal digits stand for, after digits that stand for `n`.
unfoldable pub read_from : ℕ → String → Option ℕ
read_from n String.[] = some n
read_from n (String.◌∷◌ c s) = elim (digit_value c) [
  | none ↦ none
  | some d ↦ read_from (n * 10 + d) s
]

-- `Number(text)` on a text of decimal digits.
unfoldable pub number : String → Option ℕ
unfolding read_from
number s = read_from 0 s
