-- ===== src/PgBusiness/Represents.antt =====
-- The rows stand for the in-memory store of accounts: an invariant that the writes of both keep.
use mathlib.Core.Path.{subst}
use supply_chain_mangement_s.Common.{
  String, ◌≡◌, ◌∙◌, refl, sym, ap, true, false, ◌==◌, Option, none, some, List, [], ◌∷◌, ◌++◌,
  append-nil, keep, keep-append, arith, eq_refl, text-cases, inl, inr,
}
use supply_chain_mangement_s.Dict.{lookup, insert, lookup-insert}
use supply_chain_mangement_s.Text.{truthy}
use supply_chain_mangement_s.Business
use supply_chain_mangement_s.Business.{Business, BusinessStore, Patch, patched}
use supply_chain_mangement_s.Postgres.{committed}
use supply_chain_mangement_s.PgBusiness.{BusinessRow, row_of, taken, create}

abbrev pub at_id : String → List BusinessRow → List BusinessRow
at_id id = keep (λ row. row.id == id)

abbrev pub at_email : String → List BusinessRow → List BusinessRow
at_email email = keep (λ row. row.email == email)

-- All fields agree but the time of the last change, which Postgres takes from its own clock.
abbrev pub SameRow : BusinessRow → Business → Type 0
SameRow row b = row ≡ record (row_of b) { updated_at = row.updated_at }

abbrev pub IdMatch : String → List BusinessRow → Option Business → Type 0
IdMatch id [] none = Unit
IdMatch id (row ∷ []) (some b) = (b.id ≡ id) × SameRow row b
IdMatch id _ _ = ⊥

abbrev pub EmailMatch : List BusinessRow → List BusinessRow → Option String → Type 0
EmailMatch rows [] none = Unit
EmailMatch rows (row ∷ []) (some id) =
    (truthy (some id) ≡ true) × (row.id ≡ id) × (at_id id rows ≡ row ∷ [])
EmailMatch rows _ _ = ⊥

pub record Represents (rows : List BusinessRow) (store : BusinessStore) : Type 0 where
  pub ids : (id : String) → IdMatch id (at_id id rows) (lookup id store.by_id)
  pub emails :
      (email : String) → EmailMatch rows (at_email email rows) (lookup email store.id_by_email)

taken-at :
    (id email : String) (rows : List BusinessRow)
    → taken id email rows ≡ false
    → (at_id id rows ≡ []) × (at_email email rows ≡ [])
taken-at id email [] h = (refl, refl)
taken-at id email (row ∷ rows) h = ground (arith, taken-at id email rows)

create-committed :
    (b : Business) (rows : List BusinessRow)
    → (create b rows).0 ≡ committed tt
    → (taken b.id b.email rows ≡ false) × ((create b rows).1 ≡ rows ++ row_of b ∷ [])
unfolding create
create-committed b rows h = ground (arith, h)

module _ (b : Business) (rows : List BusinessRow) (store : BusinessStore)
    (free : taken b.id b.email rows ≡ false) where
  at_id-added :
      (id : String) → (b.id == id) ≡ false → at_id id (rows ++ row_of b ∷ []) ≡ at_id id rows
  at_id-added id e =
      keep-append _ rows _ ∙ ap (λ x. at_id id rows ++ x) (rw e refl) ∙ append-nil (at_id id rows)

  at_email-added :
      (email : String)
      → (b.email == email) ≡ false
      → at_email email (rows ++ row_of b ∷ []) ≡ at_email email rows
  at_email-added email e =
      keep-append _ rows _
      ∙ ap (λ x. at_email email rows ++ x) (rw e refl)
      ∙ append-nil (at_email email rows)

  at_id-own : at_id b.id (rows ++ row_of b ∷ []) ≡ row_of b ∷ []
  at_id-own = keep-append _ rows _ ∙ rw ((taken-at b.id b.email rows free).0, eq_refl b.id) refl

  at_email-own : at_email b.email (rows ++ row_of b ∷ []) ≡ row_of b ∷ []
  at_email-own =
      keep-append _ rows _ ∙ rw ((taken-at b.id b.email rows free).1, eq_refl b.email) refl

  ids-added :
      ((id : String) → IdMatch id (at_id id rows) (lookup id store.by_id))
      → (id : String)
      → IdMatch id (at_id id (rows ++ row_of b ∷ [])) (lookup id (insert b.id b store.by_id))
  ids-added ids id = elim (text-cases b.id id) [
    | inl same ↦
        subst
          (λ k. IdMatch k (at_id k (rows ++ row_of b ∷ [])) (lookup k (insert b.id b store.by_id)))
          same (rw (at_id-own, lookup-insert, eq_refl b.id) (refl, refl))
    | inr other ↦ rw (at_id-added id other.1, lookup-insert, other.1) (ids id)
  ]

  -- The id that an email leads to is another than a new one.
  kept-email :
      (found : List BusinessRow) (stored : Option String)
      → EmailMatch rows found stored
      → EmailMatch (rows ++ row_of b ∷ []) found stored
  kept-email [] none m = tt
  kept-email [] (some id) m = absurd m
  kept-email (row ∷ []) none m = absurd m
  kept-email (row ∷ []) (some id) (present, its, one) = elim (text-cases b.id id) [
    | inl same ↦
        let gone : at_id id rows ≡ [] =
          ap (λ k. at_id k rows) (sym same) ∙ (taken-at b.id b.email rows free).0 in
        absurd (ground (arith, gone, one))
    | inr other ↦ (present, its, at_id-added id other.1 ∙ one)
  ]
  kept-email (row ∷ other ∷ found) stored m = absurd m

  emails-added :
      truthy (some b.id) ≡ true
      → ((email : String) → EmailMatch rows (at_email email rows) (lookup email store.id_by_email))
      → (email : String)
      → EmailMatch
          (rows ++ row_of b ∷ [])
          (at_email email (rows ++ row_of b ∷ []))
          (lookup email (insert b.email b.id store.id_by_email))
  emails-added present emails email = elim (text-cases b.email email) [
    | inl same ↦
        subst
          (λ k.
            EmailMatch (rows ++ row_of b ∷ []) (at_email k (rows ++ row_of b ∷ []))
              (lookup k (insert b.email b.id store.id_by_email)))
          same (rw (at_email-own, lookup-insert, eq_refl b.email) (present, refl, at_id-own))
    | inr other ↦
        rw (at_email-added email other.1, lookup-insert, other.1)
          (kept-email (at_email email rows) (lookup email store.id_by_email) (emails email))
  ]

-- An account that is created in both, under an id that is not empty, and that Postgres commits.
pub create-Represents :
    (b : Business) (rows : List BusinessRow) (store : BusinessStore)
    → Represents rows store
    → truthy (some b.id) ≡ true
    → (create b rows).0 ≡ committed tt
    → Represents (create b rows).1 (Business.create b store)
unfolding Business.create
create-Represents b rows store r present done =
    let (free, after) = create-committed b rows done in
    rw after (record {
      ids = ids-added b rows store free r.ids;
      emails = emails-added b rows store free present r.emails;
    })
