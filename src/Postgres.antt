-- ===== src/Postgres.antt =====
-- What the stores on Postgres share: a statement that a constraint of docs/schema.sql may refuse, a
-- transaction, and grouping the rows of a result by a column, as the loops over `result.rows` do.
pub mod Grouping
use supply_chain_mangement_s.Common.{
  ℕ, ℤ, pos, negsuc, leb_ℤ, String, Bool, ◌&&◌, ◌==◌, Option, none, some, List, [], ◌∷◌, ◌++◌,
  if◌then◌else◌,
}
use supply_chain_mangement_s.Dict.{Dict, lookup, insert}

-- Why a statement fails, or the error that the store itself throws.
pub data PgError : Type 0 where
  out_of_range check_violation unique_violation foreign_key_violation invalid_text : PgError
  unknown_order unknown_business : String → PgError

pub data Outcome {ℓ} (A : Type ℓ) : Type ℓ where
  committed : A → Outcome A
  threw : PgError → Outcome A

-- Statements in sequence: the first that fails ends them.
infixl 5 ◌>>=◌
abbrev pub ◌>>=◌ {ℓ κ} : {A : Type ℓ} {B : Type κ} → Outcome A → (A → Outcome B) → Outcome B
committed a >>= next = next a
threw err >>= next = threw err

-- `BEGIN`, statements, and `COMMIT`, or on any error `ROLLBACK` and the error again: the tables as
-- the statements leave them, or as they were.
abbrev pub transaction {ℓ} : {S : Type ℓ} → Outcome S → S → Outcome (Unit {0}) × S
transaction (committed tables) before = (committed tt, tables)
transaction (threw err) before = (threw err, before)

-- A number that a column of type INTEGER holds.
abbrev pub fits_integer : ℤ → Bool
fits_integer n = leb_ℤ (negsuc 2_147_483_647) n && leb_ℤ n (pos 2_147_483_647)

-- `map.get(key) ?? []`
abbrev pub listed {ℓ} : {B : Type ℓ} → Option (List B) → List B
listed none = []
listed (some found) = found

-- `for (const row of rows) { const list = map.get(key) ?? []; list.push(…); map.set(key, list); }`
unfoldable pub grouped {ℓ κ} :
    {A : Type ℓ} {B : Type κ} → (A → String) → (A → B) → List A → Dict (List B) → Dict (List B)
grouped key value [] groups = groups
grouped key value (row ∷ rows) groups =
    grouped key value rows
      (insert (key row) (listed (lookup (key row) groups) ++ value row ∷ []) groups)

-- `column = ANY(ids)`
abbrev pub any_of : List String → String → Bool
any_of [] column = Bool.false
any_of (id ∷ ids) column = if id == column then Bool.true else any_of ids column
