-- ===== src/PgBusiness/Tests.antt =====
-- Runs of the Postgres store of accounts, and its theorem at them.
use supply_chain_mangement_s.Common.{String, ◌≡◌, refl, none, some, List, [], ◌∷◌}
use supply_chain_mangement_s.Business
use supply_chain_mangement_s.Business.{Business, Patch}
use supply_chain_mangement_s.Postgres.{threw, unique_violation, unknown_business}
use supply_chain_mangement_s.PgBusiness.{BusinessRow, create, get_by_id, get_by_email, update}
use supply_chain_mangement_s.PgBusiness.Refines.{
  Write, creates, updates, rows_after, store_after, Regular, SameView, no_accounts, reads-refine,
}

abbrev account : String → String → Business
account id email = record {
  id = id;
  email = email;
  password_hash = "salt:key";
  business_name = "Acme";
  business_type = "other";
  description = "";
  accent_color = "#9fd3ff";
  created_at = 1;
  updated_at = 1;
}

abbrev renamed : Patch
renamed = record {
  business_name = some "Acme Ltd";
  business_type = none;
  description = some "";
  accent_color = none;
}

abbrev rows : List BusinessRow
rows = (create (account "b1" "a@x") []).1

email_in_use : create (account "b2" "a@x") rows ≡ (threw unique_violation, rows)
unfolding create
email_in_use = refl

no_such_account : update "b9" renamed 5 rows ≡ (threw (unknown_business "b9"), rows)
unfolding create update
no_such_account = refl

by_email : get_by_email "a@x" rows ≡ some (account "b1" "a@x")
unfolding create get_by_email
by_email = refl

abbrev writes : List Write
writes =
    creates (account "b1" "a@x")
    ∷ updates "b1" renamed 5 6
    ∷ creates (account "b2" "b@x")
    ∷ updates "b9" renamed 7 7
    ∷ []

reads-refine_example :
    SameView
      (get_by_id "b1" (rows_after writes []))
      (Business.get_by_id "b1" (store_after writes no_accounts))
    × SameView
        (get_by_email "b@x" (rows_after writes []))
        (Business.get_by_email "b@x" (store_after writes no_accounts))
unfolding Regular
reads-refine_example = reads-refine writes "b1" "b@x" (refl, refl, (refl, refl, tt))
