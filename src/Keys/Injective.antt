-- ===== src/Keys/Injective.antt =====
-- Which pairs of a warehouse and a SKU share a stock key.
use Prim.Native.String.append
use Prim.Native.String.{◌++◌}
use text.Mathlib.TextLemmas.{append_cancel_left}
use supply_chain_mangement_s.Common.{String, ◌≡◌, ◌∙◌, sym, ap, false, List, [], ◌∷◌}
use supply_chain_mangement_s.Text.{has_char, split, split-join}
use supply_chain_mangement_s.Text.Split.{unsplit, unsplit-split}
use supply_chain_mangement_s.Keys.{stock_key}

abbrev head_or_empty : List String → String
head_or_empty [] = String.[]
head_or_empty (s ∷ parts) = s

abbrev tail_of : List String → List String
tail_of [] = []
tail_of (s ∷ parts) = parts

-- What is behind the prefix, split at its colons.
split-pair : (w s : String) → has_char ":" w ≡ false → split ":" (w ++ (":" ++ s)) ≡ w ∷ split ":" s
split-pair w s h =
    ap (λ t. split ":" (w ++ t)) (append.cons ":" String.[] s ∙ ap (String.◌∷◌ ":") (append.nil s))
    ∙ split-join ":" w s h

-- Two pairs whose warehouse ids have no colon share a stock key only if they are one pair.
pub stock_key-injective :
    (w w' s s' : String)
    → has_char ":" w ≡ false
    → has_char ":" w' ≡ false
    → stock_key w s ≡ stock_key w' s'
    → (w ≡ w') × (s ≡ s')
unfolding stock_key
stock_key-injective w w' s s' h h' e =
    let parts : w ∷ split ":" s ≡ w' ∷ split ":" s' =
      sym (split-pair w s h)
      ∙ ap (split ":") (append_cancel_left "stock:" (w ++ (":" ++ s)) (w' ++ (":" ++ s')) e)
      ∙ split-pair w' s' h' in
    (
      ap head_or_empty parts,
      sym (unsplit-split ":" s) ∙ ap (λ p. unsplit ":" (tail_of p)) parts ∙ unsplit-split ":" s',
    )
