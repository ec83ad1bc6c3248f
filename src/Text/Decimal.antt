-- ===== src/Text/Decimal.antt =====
-- The decimal text of a number reads back as the number, and has digits only.
use Prim.Native.Char.{Char}
use Prim.Native.String.append
use Prim.Native.String.{◌++◌ as join}
use supply_chain_mangement_s.Common.{
  ℕ, zero, suc, ◌+◌, ◌*◌, ◌/◌, ◌%◌, ◌≤◌, ◌<◌, String, ◌≡◌, ◌∙◌, refl, ap, true, false, ◌||◌, Option,
  none, some, Bool-cases, Option-cases, inl, inr, ltb, arith,
}
use supply_chain_mangement_s.Text.{
  is_char, has_char, truthy, digit, decimal_from, decimal, digit_value, read_from, number,
}

digit_value-digit : (d : ℕ) → d < 10 → digit_value (digit d) ≡ some d
unfolding digit
digit_value-digit zero h = refl
digit_value-digit (suc zero) h = refl
digit_value-digit (suc (suc zero)) h = refl
digit_value-digit (suc (suc (suc zero))) h = refl
digit_value-digit (suc (suc (suc (suc zero)))) h = refl
digit_value-digit (suc (suc (suc (suc (suc zero))))) h = refl
digit_value-digit (suc (suc (suc (suc (suc (suc zero)))))) h = refl
digit_value-digit (suc (suc (suc (suc (suc (suc (suc zero))))))) h = refl
digit_value-digit (suc (suc (suc (suc (suc (suc (suc (suc zero)))))))) h = refl
digit_value-digit (suc (suc (suc (suc (suc (suc (suc (suc (suc zero))))))))) h = refl
digit_value-digit (suc (suc (suc (suc (suc (suc (suc (suc (suc (suc d)))))))))) h =
    absurd (omega arith)

-- The digits before the last one, and the last one.
abbrev then_digit : Option ℕ → Char → Option ℕ
then_digit none c = none
then_digit (some m) c = elim (digit_value c) [ none ↦ none | some d ↦ some (m * 10 + d) ]

read_from-snoc :
    (n : ℕ) (s : String) (c : Char)
    → read_from n (join s (String.◌∷◌ c String.[])) ≡ then_digit (read_from n s) c
unfolding read_from
read_from-snoc n String.[] c = ap (read_from n) (append.nil (String.◌∷◌ c String.[]))
read_from-snoc n (String.◌∷◌ b s) c =
    ap (read_from n) (append.cons b s (String.◌∷◌ c String.[]))
    ∙ elim (Option-cases (digit_value b)) [
      | inl e ↦ rw (read_from, e) refl
      | inr (d, e) ↦ rw (read_from, e) (read_from-snoc (n * 10 + d) s c)
    ]

read_from-digit : (n : ℕ) → n < 10 → read_from 0 (String.◌∷◌ (digit n) String.[]) ≡ some n
unfolding read_from
read_from-digit n h = rw (read_from, digit_value-digit n h) (ap some (omega arith))

last_digit : (n : ℕ) → then_digit (some (n / 10)) (digit (n % 10)) ≡ some n
last_digit n = rw (then_digit, digit_value-digit (n % 10) (omega arith)) (ap some (omega arith))

read_from-decimal_from : (fuel n : ℕ) → n ≤ fuel → read_from 0 (decimal_from fuel n) ≡ some n
unfolding decimal_from
read_from-decimal_from zero n h = read_from-digit n (omega arith)
read_from-decimal_from (suc fuel) n h = elim (Bool-cases (ltb n 10)) [
  | inl small ↦ rw small (read_from-digit n (ground arith))
  | inr large ↦ rw large (
      read_from-snoc 0 (decimal_from fuel (n / 10)) (digit (n % 10))
      ∙ ap (λ o. then_digit o (digit (n % 10)))
          (read_from-decimal_from fuel (n / 10) (ground arith))
      ∙ last_digit n)
]

-- `Number(String(n))` is `n`.
pub number-decimal : (n : ℕ) → number (decimal n) ≡ some n
unfolding number decimal
number-decimal n = read_from-decimal_from n n (omega arith)

has_char-join :
    (sep : Char) (a b : String) → has_char sep (join a b) ≡ (has_char sep a || has_char sep b)
has_char-join sep String.[] b = ap (has_char sep) (append.nil b)
has_char-join sep (String.◌∷◌ c s) b =
    ap (has_char sep) (append.cons c s b)
    ∙ ap (λ x. is_char c sep || x) (has_char-join sep s b)
    ∙ ground arith

is_char-digit : (n : ℕ) → is_char (digit n) "." ≡ false
unfolding digit
is_char-digit zero = refl
is_char-digit (suc zero) = refl
is_char-digit (suc (suc zero)) = refl
is_char-digit (suc (suc (suc zero))) = refl
is_char-digit (suc (suc (suc (suc zero)))) = refl
is_char-digit (suc (suc (suc (suc (suc zero))))) = refl
is_char-digit (suc (suc (suc (suc (suc (suc zero)))))) = refl
is_char-digit (suc (suc (suc (suc (suc (suc (suc zero))))))) = refl
is_char-digit (suc (suc (suc (suc (suc (suc (suc (suc zero)))))))) = refl
is_char-digit (suc (suc (suc (suc (suc (suc (suc (suc (suc n))))))))) = refl

has_char-decimal_from : (fuel n : ℕ) → has_char "." (decimal_from fuel n) ≡ false
unfolding decimal_from
has_char-decimal_from zero n = rw (is_char-digit n) refl
has_char-decimal_from (suc fuel) n = elim (Bool-cases (ltb n 10)) [
  | inl small ↦ ground (arith, small, is_char-digit n)
  | inr large ↦ ground (
    arith,
    large,
    has_char-join "." (decimal_from fuel (n / 10)) (String.◌∷◌ (digit (n % 10)) String.[]),
    has_char-decimal_from fuel (n / 10),
    is_char-digit (n % 10),
  )
]

-- The decimal text of a number has no full stop.
pub has_char-decimal : (n : ℕ) → has_char "." (decimal n) ≡ false
unfolding decimal
has_char-decimal n = has_char-decimal_from n n

truthy-join : (a : String) (c : Char) (s : String) → truthy (some (join a (String.◌∷◌ c s))) ≡ true
truthy-join String.[] c s = ap (λ x. truthy (some x)) (append.nil (String.◌∷◌ c s))
truthy-join (String.◌∷◌ b a) c s = ap (λ x. truthy (some x)) (append.cons b a (String.◌∷◌ c s))

truthy-decimal_from : (fuel n : ℕ) → truthy (some (decimal_from fuel n)) ≡ true
unfolding decimal_from
truthy-decimal_from zero n = refl
truthy-decimal_from (suc fuel) n = elim (Bool-cases (ltb n 10)) [
  | inl small ↦ rw small refl
  | inr large ↦ rw large (truthy-join (decimal_from fuel (n / 10)) (digit (n % 10)) String.[])
]

-- Nor is it empty.
pub truthy-decimal : (n : ℕ) → truthy (some (decimal n)) ≡ true
unfolding decimal
truthy-decimal n = truthy-decimal_from n n
