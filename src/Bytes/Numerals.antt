-- ===== src/Bytes/Numerals.antt =====
-- The decimal text of an integer reads back as the integer, and has no end of line in it.
use supply_chain_mangement_s.Common.{
  ℕ, zero, suc, ◌+◌, ◌-◌, ◌*◌, ◌/◌, ◌%◌, ◌≤◌, ℤ, pos, negsuc, ltb, ◌≡◌, ◌≢◌, ◌∙◌, refl, sym, ap,
  true, Option, none, some, [], ◌∷◌, ◌++◌, All, All-append, arith, Bool-cases, inl, inr,
  if◌then◌else◌,
}
use supply_chain_mangement_s.Bytes.{
  Bytes, carriage_return, digits_from, digits, signed, is_digit, read_digits, nonnegative, negated,
  number,
}

-- The digits before the last one, and the last one.
abbrev then_digit : Option ℕ → ℕ → Option ℕ
then_digit none c = none
then_digit (some m) c = if is_digit c then some (m * 10 + (c - b'0')) else none

read_digits-snoc :
    (n : ℕ) (s : Bytes) (c : ℕ) → read_digits n (s ++ c ∷ []) ≡ then_digit (read_digits n s) c
unfolding read_digits
read_digits-snoc n [] c = refl
read_digits-snoc n (b ∷ s) c = ground (arith, read_digits-snoc (n * 10 + (b - b'0')) s c)

read_digits-digits_from : (fuel n : ℕ) → n ≤ fuel → read_digits 0 (digits_from fuel n) ≡ some n
unfolding digits_from read_digits
read_digits-digits_from zero n h = ground arith
read_digits-digits_from (suc fuel) n h = elim (Bool-cases (ltb n 10)) [
  | inl small ↦ ground arith
  | inr large ↦ rw large (
      read_digits-snoc 0 (digits_from fuel (n / 10)) (b'0' + n % 10)
      ∙ ap (λ o. then_digit o (b'0' + n % 10))
          (read_digits-digits_from fuel (n / 10) (ground arith))
      ∙ ground arith)
]

pub read_digits-digits : (n : ℕ) → read_digits 0 (digits n) ≡ some n
unfolding digits
read_digits-digits n = read_digits-digits_from n n (omega arith)

head_digit :
    (front : Bytes) (c : ℕ) (s : Bytes) (last : ℕ)
    → (front ≡ c ∷ s) × (is_digit c ≡ true)
    → (d : ℕ) × (t : Bytes) × (front ++ last ∷ [] ≡ d ∷ t) × (is_digit d ≡ true)
head_digit front c s last (e, h) = (c, s ++ last ∷ [], ap (λ x. x ++ last ∷ []) e, h)

digits_from-cons :
    (fuel n : ℕ) → (c : ℕ) × (s : Bytes) × (digits_from fuel n ≡ c ∷ s) × (is_digit c ≡ true)
unfolding digits_from
digits_from-cons zero n = (b'0' + n % 10, [], refl, ground arith)
digits_from-cons (suc fuel) n = elim (Bool-cases (ltb n 10)) [
  | inl small ↦ (b'0' + n % 10, [], rw small refl, ground arith)
  | inr large ↦
      let (c, s, e, h) = digits_from-cons fuel (n / 10) in
      let (d, t, e', h') = head_digit (digits_from fuel (n / 10)) c s (b'0' + n % 10) (e, h) in
      (d, t, rw large e', h')
]

number-cons :
    (c : ℕ) (s : Bytes) → is_digit c ≡ true → number (c ∷ s) ≡ nonnegative (read_digits 0 (c ∷ s))
unfolding number
number-cons c [] h = refl
number-cons c (d ∷ s) h = ground arith

number-digits : (n : ℕ) → number (digits n) ≡ some (pos n)
unfolding digits
number-digits n =
    let (c, s, e, h) = digits_from-cons n n in
    ap number e
    ∙ number-cons c s h
    ∙ ap (λ x. nonnegative (read_digits 0 x)) (sym e)
    ∙ ap nonnegative (read_digits-digits n)

number-minus :
    (n c : ℕ) (s : Bytes) → digits n ≡ c ∷ s → number (b'-' ∷ digits n) ≡ negated (some n)
unfolding number
number-minus n c s e =
    ap (λ x. number (b'-' ∷ x)) e
    ∙ ap (λ x. negated (read_digits 0 x)) (sym e)
    ∙ ap negated (read_digits-digits n)

-- `Number(String(n))` is `n`.
pub number-signed : (n : ℤ) → number (signed n) ≡ some n
unfolding signed
number-signed (pos n) = number-digits n
number-signed (negsuc n) =
    let (c, s, e, h) = digits_from-cons (suc n) (suc n) in
    number-minus (suc n) c s (unfold digits in e)

-- Bytes of a line: none of them is a carriage return.
abbrev pub IsLine : Bytes → Type 0
IsLine = All (λ c. c ≢ carriage_return)

digits_from-IsLine : (fuel n : ℕ) → IsLine (digits_from fuel n)
unfolding digits_from
digits_from-IsLine zero n = (omega arith, tt)
digits_from-IsLine (suc fuel) n = elim (Bool-cases (ltb n 10)) [
  | inl small ↦ rw small (omega arith, tt)
  | inr large ↦ rw large (
      All-append _ (digits_from fuel (n / 10)) _ (digits_from-IsLine fuel (n / 10))
        (omega arith, tt))
]

pub signed-IsLine : (n : ℤ) → IsLine (signed n)
unfolding signed digits
signed-IsLine (pos n) = digits_from-IsLine n n
signed-IsLine (negsuc n) = (omega arith, digits_from-IsLine (suc n) (suc n))
