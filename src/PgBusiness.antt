-- ===== src/PgBusiness.antt =====
-- src/business/pgBusinessStore.ts over the table `businesses` of docs/schema.sql: each SQL statement of
-- the store as a function of the rows. A timestamp is its milliseconds, and `now` the server's clock.
pub mod Represents
pub mod Updates
pub mod Refines
mod Tests
use supply_chain_mangement_s.Common.{
  ℕ, String, Bool, true, false, ◌||◌, ◌==◌, Option, none, some, List, [], ◌∷◌, ◌++◌, keep,
  if◌then◌else◌,
}
use supply_chain_mangement_s.Business.{Business, Patch}
use supply_chain_mangement_s.Postgres.{
  PgError, unique_violation, unknown_business, Outcome, committed, threw,
}

pub record BusinessRow : Type 0 where
  pub id : String
  pub email : String
  pub password_hash : String
  pub business_name : String
  pub business_type : String
  pub description : String
  pub accent_color : String
  pub created_at : ℕ
  pub updated_at : ℕ

abbrev pub row_of : Business → BusinessRow
row_of b = record {
  id = b.id;
  email = b.email;
  password_hash = b.password_hash;
  business_name = b.business_name;
  business_type = b.business_type;
  description = b.description;
  accent_color = b.accent_color;
  created_at = b.created_at;
  updated_at = b.updated_at;
}

unfoldable pub to_business : BusinessRow → Business
to_business row = record {
  id = row.id;
  email = row.email;
  password_hash = row.password_hash;
  business_name = row.business_name;
  business_type = row.business_type;
  description = row.description;
  accent_color = row.accent_color;
  created_at = row.created_at;
  updated_at = row.updated_at;
}

-- The PRIMARY KEY and the UNIQUE column.
abbrev pub taken : String → String → List BusinessRow → Bool
taken id email [] = false
taken id email (row ∷ rows) = row.id == id || row.email == email || taken id email rows

-- `INSERT INTO businesses …`
unfoldable pub create : Business → List BusinessRow → Outcome (Unit {0}) × List BusinessRow
create b rows =
    if taken b.id b.email rows
    then (threw unique_violation, rows)
    else (committed tt, rows ++ row_of b ∷ [])

-- `const row = result.rows[0]; return row ? this.toBusiness(row) : undefined`
unfoldable pub first_business : List BusinessRow → Option Business
unfolding to_business
first_business [] = none
first_business (row ∷ rows) = some (to_business row)

unfoldable pub get_by_id : String → List BusinessRow → Option Business
unfolding first_business
get_by_id id rows = first_business (keep (λ row. row.id == id) rows)

unfoldable pub get_by_email : String → List BusinessRow → Option Business
unfolding first_business
get_by_email email rows = first_business (keep (λ row. row.email == email) rows)

-- `COALESCE($n, column)`
abbrev pub coalesce : Option String → String → String
coalesce none column = column
coalesce (some value) column = value

-- The SET clause.
unfoldable pub set_row : Patch → ℕ → BusinessRow → BusinessRow
set_row patch now row = record row {
  business_name = coalesce patch.business_name row.business_name;
  business_type = coalesce patch.business_type row.business_type;
  description = coalesce patch.description row.description;
  accent_color = coalesce patch.accent_color row.accent_color;
  updated_at = now;
}

-- `UPDATE businesses SET … WHERE id = $1`
unfoldable pub update_rows : String → Patch → ℕ → List BusinessRow → List BusinessRow
unfolding set_row
update_rows id patch now [] = []
update_rows id patch now (row ∷ rows) =
    (if row.id == id then set_row patch now row else row) ∷ update_rows id patch now rows

abbrev pub returned : String → Option Business → Outcome Business
returned id none = threw (unknown_business id)
returned id (some b) = committed b

-- The statement, and its `RETURNING *`: the rows that it changed, as they are after it.
unfoldable pub update : String → Patch → ℕ → List BusinessRow → Outcome Business × List BusinessRow
unfolding update_rows first_business
update id patch now rows =
    let rows' = update_rows id patch now rows in
    (returned id (first_business (keep (λ row. row.id == id) rows')), rows')
