-- ===== src/Text/Split.antt =====
-- The parts of a split text, put together again with the separator, are the text.
use Prim.Native.Char.{Char}
use Prim.Native.String.append
use Prim.Native.String.{◌++◌ as join}
use text.Mathlib.TextLemmas.{head-eq_of_cons-eq}
use supply_chain_mangement_s.Common.{
  String, ◌≡◌, ◌∙◌, refl, sym, ap, List, [], ◌∷◌, Bool-cases, inl, inr, eq_iff, if◌then◌else◌,
}
use supply_chain_mangement_s.Text.{is_char, prepend, split}

-- `parts.join(sep)`
abbrev pub unsplit : Char → List String → String
unsplit sep [] = String.[]
unsplit sep (a ∷ []) = a
unsplit sep (a ∷ b ∷ rest) = join a (String.◌∷◌ sep (unsplit sep (b ∷ rest)))

unsplit-prepend :
    (sep c : Char) (parts : List String)
    → unsplit sep (prepend c parts) ≡ String.◌∷◌ c (unsplit sep parts)
unsplit-prepend sep c [] = refl
unsplit-prepend sep c (a ∷ []) = refl
unsplit-prepend sep c (a ∷ b ∷ rest) = append.cons c a (String.◌∷◌ sep (unsplit sep (b ∷ rest)))

unsplit-empty_part :
    (sep : Char) (parts : List String)
    → (a : String) × (rest : List String) × (parts ≡ a ∷ rest)
    → unsplit sep (String.[] ∷ parts) ≡ String.◌∷◌ sep (unsplit sep parts)
unsplit-empty_part sep parts (a, rest, e) =
    rw e (append.nil (String.◌∷◌ sep (unsplit sep (a ∷ rest))))

prepend-cons :
    (c : Char) (parts : List String)
    → (a : String) × (rest : List String) × (prepend c parts ≡ a ∷ rest)
prepend-cons c [] = (String.◌∷◌ c String.[], [], refl)
prepend-cons c (a ∷ rest) = (String.◌∷◌ c a, rest, refl)

split-cons :
    (sep : Char) (s : String) → (a : String) × (rest : List String) × (split sep s ≡ a ∷ rest)
unfolding split
split-cons sep String.[] = (String.[], [], refl)
split-cons sep (String.◌∷◌ c s) = elim (Bool-cases (is_char c sep)) [
  | inl e ↦ (String.[], split sep s, rw e refl)
  | inr e ↦ let (a, rest, h) = prepend-cons c (split sep s) in (a, rest, rw e h)
]

pub unsplit-split : (sep : Char) (s : String) → unsplit sep (split sep s) ≡ s
unfolding split
unsplit-split sep String.[] = refl
unsplit-split sep (String.◌∷◌ c s) =
    let ih = unsplit-split sep s in
    elim (Bool-cases (is_char c sep)) [
      | inl e ↦
          let same : c ≡ sep =
            head-eq_of_cons-eq ((eq_iff (String.◌∷◌ c String.[]) (String.◌∷◌ sep String.[])).0 e) in
          ap (λ b. unsplit sep (if b then String.[] ∷ split sep s else prepend c (split sep s))) e
          ∙ unsplit-empty_part sep (split sep s) (split-cons sep s)
          ∙ ap (String.◌∷◌ sep) ih
          ∙ ap (λ d. String.◌∷◌ d s) (sym same)
      | inr e ↦
          ap (λ b. unsplit sep (if b then String.[] ∷ split sep s else prepend c (split sep s))) e
          ∙ unsplit-prepend sep c (split sep s)
          ∙ ap (String.◌∷◌ c) ih
    ]
