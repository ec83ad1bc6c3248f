-- ===== src/Common/Lists.antt =====
-- Lists measured and cut by native numbers, under the library's names.
use Prim.Native.Nat.{ℕ, zero, suc, ◌+◌}
use mathlib.Core.Path.{◌≡◌, refl}
use mathlib.Core.Bool.{Bool, true}
use mathlib.Core.List.{List, [], ◌∷◌, ◌++◌}
use native.Mathlib.Omega.{arith}
use supply_chain_mangement_s.Common.Tests.{if◌then◌else◌}

module _ {ℓ} {A : Type ℓ} where
  abbrev pub length : List A → ℕ
  length [] = 0
  length (x ∷ xs) = suc (length xs)

  abbrev pub drop : ℕ → List A → List A
  drop zero xs = xs
  drop (suc n) [] = []
  drop (suc n) (x ∷ xs) = drop n xs

  -- `xs.filter(p)`
  abbrev pub keep : (A → Bool) → List A → List A
  keep p [] = []
  keep p (x ∷ xs) = if p x then x ∷ keep p xs else keep p xs

  pub length-append : (xs ys : List A) → length (xs ++ ys) ≡ length xs + length ys
  length-append [] ys = omega arith
  length-append (x ∷ xs) ys = omega (arith, length-append xs ys)

module _ {ℓ} {A : Type ℓ} (p : A → Bool) where
  pub keep-append : (xs ys : List A) → keep p (xs ++ ys) ≡ keep p xs ++ keep p ys
  keep-append [] ys = refl
  keep-append (x ∷ xs) ys = ground (arith, keep-append xs ys)

  -- Keeping what a weaker test keeps first.
  pub keep-keep :
      (q : A → Bool) (xs : List A)
      → ((x : A) → p x ≡ true → q x ≡ true)
      → keep p (keep q xs) ≡ keep p xs
  keep-keep q [] h = refl
  keep-keep q (x ∷ xs) h = ground (arith, keep-keep q xs h, h x)

module _ {ℓ κ} {A : Type ℓ} where
  -- A predicate on each element, as nested pairs.
  abbrev pub All : (P : A → Type κ) (xs : List A) → Type κ
  All P [] = Unit
  All P (x ∷ rest) = P x × All P rest

  pub All-append :
      (P : A → Type κ) (first second : List A)
      → All P first
      → All P second
      → All P (first ++ second)
  All-append P [] second tail_holds second_holds = second_holds
  All-append P (x ∷ rest) second holds second_holds =
      (holds.0, All-append P rest second holds.1 second_holds)
