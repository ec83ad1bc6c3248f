-- ===== src/Exec/Returns.antt =====
-- Total correctness of an action: from the state `s` it returns, without a throw, a value and a
-- state that satisfy `P`.
use supply_chain_mangement_s.Common.{◌≡◌, ◌∙◌, ap}
use supply_chain_mangement_s.Exec.{Exec, ok, continue, ◌>>=◌}

abbrev pub Returns : {S A : Type 0} → Exec S A → (A → S → Type 0) → S → Type 0
Returns {S} {A} m P s = (a : A) × (s' : S) × (m s ≡ (ok a, s')) × P a s'

module _ {S A : Type 0} where
  pub Returns-map :
      (m : Exec S A) {P Q : A → S → Type 0} (s : S)
      → Returns m P s
      → ((a : A) (s' : S) → P a s' → Q a s')
      → Returns m Q s
  Returns-map m s (a, s', e, p) f = (a, s', e, f a s' p)

  -- The final state and the value, as the two halves of the result.
  pub Returns-state :
      (m : Exec S A) {P : A → S → Type 0} {s : S}
      → Returns m P s
      → (a : A) × ((m s).0 ≡ ok a) × P a (m s).1
  Returns-state m {P} (a, s', e, p) = (a, ap (λ out. out.0) e, rw e p)

module _ {S A B : Type 0} where
  pub Returns-bind :
      (m : Exec S A) (f : A → Exec S B) {P : A → S → Type 0} {Q : B → S → Type 0} (s : S)
      → Returns m P s
      → ((a : A) (s' : S) → P a s' → Returns (f a) Q s')
      → Returns (m >>= f) Q s
  Returns-bind m f s (a, s', e, p) k =
      let (b, s'', e', q) = k a s' p in (b, s'', ap (λ out. continue out.0 f out.1) e ∙ e', q)
