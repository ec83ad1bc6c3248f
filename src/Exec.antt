-- ===== src/Exec.antt =====
-- Methods that change state and may throw. What was written before a throw stays written, so the
-- state comes back beside the error too. `await` of a rejected promise is a throw here.
pub mod Returns
use supply_chain_mangement_s.Common.{String}

pub data Error : Type 0 where
  unknown_order : String → Error
  unknown_business : String → Error
  reply_invalid_qty reply_invalid_mode reply_invalid_expire unknown_script : Error

pub data Result {ℓ} (A : Type ℓ) : Type ℓ where
  ok : A → Result A
  err : Error → Result A

-- A method of an object with state `S`.
abbrev pub Exec {ℓ} : (S A : Type ℓ) → Type ℓ
Exec S A = S → Result A × S

module _ {ℓ} {S A : Type ℓ} where
  abbrev pub pure : A → Exec S A
  pure value state = (ok value, state)

  abbrev pub raise : Error → Exec S A
  raise error state = (err error, state)

  abbrev pub gets : (S → A) → Exec S A
  gets read state = (ok (read state), state)

module _ {ℓ} {S A B : Type ℓ} where
  -- What follows a call: its result goes on, an error ends the method.
  abbrev pub continue : Result A → (A → Exec S B) → S → Result B × S
  continue (err error) next state = (err error, state)
  continue (ok value) next state = next value state

  infixl 5 ◌>>=◌ ◌>>◌
  abbrev pub ◌>>=◌ : Exec S A → (A → Exec S B) → S → Result B × S
  ◌>>=◌ first next state = let (result, state') = first state in continue result next state'

  abbrev pub ◌>>◌ : Exec S A → Exec S B → Exec S B
  first >> second = first >>= λ _. second

abbrev pub modify : {S : Type 0} → (S → S) → Exec S (Unit {0})
modify change state = (ok tt, change state)
