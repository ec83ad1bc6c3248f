-- ===== src/PgBusiness/Refines.antt =====
-- Reads of accounts from Postgres give what reads from the in-memory store give after the same writes.
use mathlib.Core.Path.{subst}
use supply_chain_mangement_s.Common.{
  ℕ, String, ◌≡◌, refl, sym, ap, true, Option, none, some, List, [], ◌∷◌, arith, eq_refl,
  text-cases, Option-cases, inl, inr, if◌then◌else◌,
}
use supply_chain_mangement_s.Dict.{lookup, insert, lookup-insert}
use supply_chain_mangement_s.Exec.{Result, ok, err}
use supply_chain_mangement_s.Exec
use supply_chain_mangement_s.Text.{truthy}
use supply_chain_mangement_s.Business
use supply_chain_mangement_s.Business.{Business, BusinessStore, Patch, patched}
use supply_chain_mangement_s.Postgres.{unknown_business, Outcome, committed, threw}
use supply_chain_mangement_s.PgBusiness.{
  BusinessRow, to_business, create, first_business, get_by_id, get_by_email, update_rows, returned,
  update,
}
use supply_chain_mangement_s.PgBusiness.Represents.{
  at_id, at_email, SameRow, IdMatch, EmailMatch, Represents, create-Represents,
}
use supply_chain_mangement_s.PgBusiness.Updates.{
  at_id-updated, at_email-updated, EmailMatch-updated, updated-none, at_id-other, IdMatch-updated,
}

-- An account as both stores give it: all fields agree but the time of the last change.
abbrev pub SameBusiness : Business → Business → Type 0
SameBusiness pg mem = pg ≡ record mem { updated_at = pg.updated_at }

abbrev pub SameView : Option Business → Option Business → Type 0
SameView none none = Unit
SameView (some pg) (some mem) = SameBusiness pg mem
SameView _ _ = ⊥

to_business-SameBusiness :
    (row : BusinessRow) (b : Business) → SameRow row b → SameBusiness (to_business row) b
unfolding to_business
to_business-SameBusiness row b same = ap to_business same

id_view :
    (id : String) (found : List BusinessRow) (stored : Option Business)
    → IdMatch id found stored
    → SameView (first_business found) stored
unfolding first_business
id_view id [] none m = tt
id_view id [] (some b) m = absurd m
id_view id (row ∷ []) none m = absurd m
id_view id (row ∷ []) (some b) (here, same) = to_business-SameBusiness row b same
id_view id (row ∷ other ∷ found) stored m = absurd m

abbrev followed : BusinessStore → Option String → Option Business
followed store none = none
followed store (some id) = if truthy (some id) then lookup id store.by_id else none

email_view :
    (rows found : List BusinessRow) (store : BusinessStore) (stored : Option String)
    → ((id : String) → IdMatch id (at_id id rows) (lookup id store.by_id))
    → EmailMatch rows found stored
    → SameView (first_business found) (followed store stored)
unfolding first_business
email_view rows [] store none ids m = tt
email_view rows [] store (some id) ids m = absurd m
email_view rows (row ∷ []) store none ids m = absurd m
email_view rows (row ∷ []) store (some id) ids (present, its, one) = rw present (
    id_view id (row ∷ []) (lookup id store.by_id)
      (subst (λ x. IdMatch id x (lookup id store.by_id)) one (ids id)))
email_view rows (row ∷ other ∷ found) store stored ids m = absurd m

get_by_email_lem :
    (email : String) (store : BusinessStore)
    → Business.get_by_email email store ≡ followed store (lookup email store.id_by_email)
unfolding Business.get_by_email
get_by_email_lem email store = go (lookup email store.id_by_email)
  where
    go :
        (o : Option String)
        → (elim o [
          | none ↦ none
          | some id ↦ if truthy (some id) then lookup id store.by_id else none
        ])
          ≡ followed store o
    go none = refl
    go (some id) = refl

-- The end of an update in the table and of one in the store.
abbrev pub SameUpdate : Outcome Business → Result Business → Type 0
SameUpdate (committed pg) (ok mem) = SameBusiness pg mem
SameUpdate (threw (unknown_business a)) (err (Exec.unknown_business b)) = a ≡ b
SameUpdate _ _ = ⊥

abbrev pub InStep : Outcome Business × List BusinessRow → Result Business × BusinessStore → Type 0
InStep pg mem = SameUpdate pg.0 mem.0 × Represents pg.1 mem.1

IdMatch-none :
    (id : String) (found : List BusinessRow) (stored : Option Business)
    → stored ≡ none
    → IdMatch id found stored
    → found ≡ []
IdMatch-none id [] stored e m = refl
IdMatch-none id (row ∷ []) none e m = absurd m
IdMatch-none id (row ∷ []) (some b) e m = absurd (ground (arith, e))
IdMatch-none id (row ∷ other ∷ found) stored e m = absurd m

SameUpdate-view :
    (key : String) (found : List BusinessRow) (b : Business)
    → IdMatch key found (some b)
    → SameUpdate (returned key (first_business found)) (ok b)
unfolding first_business
SameUpdate-view key [] b m = absurd m
SameUpdate-view key (row ∷ []) b (here, same) = to_business-SameBusiness row b same
SameUpdate-view key (row ∷ other ∷ found) b m = absurd m

-- Whether the id is known or not, an update of a profile in the table and one in the store end the
-- same way, with the same account up to the time of the change, and leave them in step.
pub update-InStep :
    (key : String) (patch : Patch) (now clock : ℕ) (rows : List BusinessRow) (store : BusinessStore)
    → Represents rows store
    → InStep (update key patch now rows) (Business.update key patch clock store)
unfolding update Business.update
update-InStep key patch now clock rows store r = elim (Option-cases (lookup key store.by_id)) [
  | inl e ↦
      let gone = IdMatch-none key (at_id key rows) (lookup key store.by_id) e (r.ids key) in
      let same = updated-none key patch now rows gone in
      rw (same, gone, Business.update, e) (unfold first_business in refl, r)
  | inr (b, e) ↦
      let b' = patched patch clock b in
      let mine : IdMatch key (update_rows key patch now (at_id key rows)) (some b') =
        IdMatch-updated key patch now clock (at_id key rows) b
          (subst (IdMatch key (at_id key rows)) e (r.ids key)) in
      let mine' : IdMatch key (at_id key (update_rows key patch now rows)) (some b') =
        subst (λ x. IdMatch key x (some b')) (sym (at_id-updated key patch now key rows)) mine in
      rw (Business.update, e)
        (
          SameUpdate-view key (at_id key (update_rows key patch now rows)) b' mine',
          record {
            ids = λ id. elim (text-cases key id) [
              | inl same ↦
                  subst
                    (λ k.
                      IdMatch k (at_id k (update_rows key patch now rows))
                        (lookup k (insert key b' store.by_id)))
                    same (rw (lookup-insert, eq_refl key) mine')
              | inr other ↦
                  rw (lookup-insert, other.1, at_id-other key patch now id rows other.1) (r.ids id)
            ];
            emails = λ email. rw (at_email-updated key patch now email rows) (
                EmailMatch-updated key patch now rows (at_email email rows)
                  (lookup email store.id_by_email) (r.emails email));
          },
        )
]

-- The writes of a store of accounts, with the clocks of the server and of the process.
pub data Write : Type 0 where
  creates : Business → Write
  updates : (id : String) → Patch → (now clock : ℕ) → Write

unfoldable pub rows_after : List Write → List BusinessRow → List BusinessRow
unfolding create update
rows_after [] rows = rows
rows_after (creates b ∷ writes) rows = rows_after writes (create b rows).1
rows_after (updates id patch now clock ∷ writes) rows =
    rows_after writes (update id patch now rows).1

unfoldable pub store_after : List Write → BusinessStore → BusinessStore
unfolding Business.create Business.update
store_after [] store = store
store_after (creates b ∷ writes) store = store_after writes (Business.create b store)
store_after (updates id patch now clock ∷ writes) store =
    store_after writes (Business.update id patch clock store).1

-- Every creation is under an id that is not empty, and commits.
unfoldable pub Regular : List Write → List BusinessRow → Type 0
unfolding create update
Regular [] rows = Unit
Regular (creates b ∷ writes) rows =
    (truthy (some b.id) ≡ true)
    × ((create b rows).0 ≡ committed tt)
    × Regular writes (create b rows).1
Regular (updates id patch now clock ∷ writes) rows = Regular writes (update id patch now rows).1

after-Represents :
    (writes : List Write) (rows : List BusinessRow) (store : BusinessStore)
    → Represents rows store
    → Regular writes rows
    → Represents (rows_after writes rows) (store_after writes store)
unfolding rows_after store_after Regular
after-Represents [] rows store r h = r
after-Represents (creates b ∷ writes) rows store r (present, done, rest) =
    after-Represents writes (create b rows).1 (Business.create b store)
      (create-Represents b rows store r present done) rest
after-Represents (updates id patch now clock ∷ writes) rows store r rest =
    after-Represents writes (update id patch now rows).1 (Business.update id patch clock store).1
      (update-InStep id patch now clock rows store r).1 rest

abbrev pub no_accounts : BusinessStore
no_accounts = record { by_id = []; id_by_email = [] }

Represents-none : Represents [] no_accounts
unfolding lookup
Represents-none = record { ids = λ id. tt; emails = λ email. tt }

-- After the same creations and profile updates from nothing, where each creation commits in Postgres
-- and is under an id that is not empty, a read by id and a read by email give from Postgres what they
-- give from the in-memory store: no account from either, or one from each, which agree in all fields
-- but the time of the last change.
pub reads-refine :
    (writes : List Write) (id email : String)
    → Regular writes []
    → SameView
        (get_by_id id (rows_after writes []))
        (Business.get_by_id id (store_after writes no_accounts))
      × SameView
          (get_by_email email (rows_after writes []))
          (Business.get_by_email email (store_after writes no_accounts))
unfolding get_by_id get_by_email Business.get_by_id
reads-refine writes id email regular =
    let r = after-Represents writes [] no_accounts Represents-none regular in
    let rows = rows_after writes [] in
    let store = store_after writes no_accounts in
    (
      id_view id (at_id id rows) (lookup id store.by_id) (r.ids id),
      rw (get_by_email_lem email store) (
          email_view rows (at_email email rows) store (lookup email store.id_by_email) r.ids
            (r.emails email)),
    )
