-- ===== src/PgBusiness/Updates.antt =====
-- What the UPDATE of a profile does to the rows, as the reads see them.
use supply_chain_mangement_s.Common.{
  ℕ, String, ◌≡◌, ◌∙◌, refl, ap, true, false, ◌==◌, Option, none, some, List, [], ◌∷◌, arith,
  eq_iff, Bool-cases, inl, inr, if◌then◌else◌,
}
use supply_chain_mangement_s.Business
use supply_chain_mangement_s.Business.{Business, BusinessStore, Patch, patched}
use supply_chain_mangement_s.PgBusiness.{BusinessRow, coalesce, set_row, update_rows}
use supply_chain_mangement_s.PgBusiness.Represents.{at_id, at_email, SameRow, IdMatch, EmailMatch}

-- A row as the UPDATE of a key leaves it.
abbrev pub set_at : String → Patch → ℕ → BusinessRow → BusinessRow
set_at key patch now row = if row.id == key then set_row patch now row else row

module _ (key : String) (patch : Patch) (now : ℕ) where
  pub set_at-keys :
      (row : BusinessRow)
      → ((set_at key patch now row).id ≡ row.id) × ((set_at key patch now row).email ≡ row.email)
  unfolding set_row
  set_at-keys row = elim (Bool-cases (row.id == key)) [
    | inl e ↦ rw e (refl, refl)
    | inr e ↦ rw e (refl, refl)
  ]

  pub at_id-updated :
      (id : String) (rows : List BusinessRow)
      → at_id id (update_rows key patch now rows) ≡ update_rows key patch now (at_id id rows)
  unfolding update_rows
  at_id-updated id [] = refl
  at_id-updated id (row ∷ rows) =
      let same = (set_at-keys row).0 in
      elim (Bool-cases (row.id == id)) [
        | inl e ↦ rw (same, e) (ap (◌∷◌ (set_at key patch now row)) (at_id-updated id rows))
        | inr e ↦ rw (same, e) (at_id-updated id rows)
      ]

  pub at_email-updated :
      (email : String) (rows : List BusinessRow)
      → at_email email (update_rows key patch now rows)
        ≡ update_rows key patch now (at_email email rows)
  unfolding update_rows
  at_email-updated email [] = refl
  at_email-updated email (row ∷ rows) =
      let same = (set_at-keys row).1 in
      elim (Bool-cases (row.email == email)) [
        | inl e ↦ rw (same, e) (ap (◌∷◌ (set_at key patch now row)) (at_email-updated email rows))
        | inr e ↦ rw (same, e) (at_email-updated email rows)
      ]

  pub EmailMatch-updated :
      (rows found : List BusinessRow) (stored : Option String)
      → EmailMatch rows found stored
      → EmailMatch (update_rows key patch now rows) (update_rows key patch now found) stored
  unfolding update_rows
  EmailMatch-updated rows [] none m = tt
  EmailMatch-updated rows [] (some id) m = absurd m
  EmailMatch-updated rows (row ∷ []) none m = absurd m
  EmailMatch-updated rows (row ∷ []) (some id) (present, its, one) = (
    present,
    (set_at-keys row).0 ∙ its,
    at_id-updated id rows ∙ ap (update_rows key patch now) one,
  )
  EmailMatch-updated rows (row ∷ other ∷ found) stored m = absurd m

  pub updated-none :
      (rows : List BusinessRow) → at_id key rows ≡ [] → update_rows key patch now rows ≡ rows
  unfolding update_rows
  updated-none [] h = refl
  updated-none (row ∷ rows) h = elim (Bool-cases (row.id == key)) [
    | inl e ↦ absurd (ground (arith, h, e))
    | inr e ↦ rw e (ap (◌∷◌ row) (updated-none rows (rw e at h)))
  ]

  pub at_id-other :
      (id : String) (rows : List BusinessRow)
      → (key == id) ≡ false
      → at_id id (update_rows key patch now rows) ≡ at_id id rows
  unfolding update_rows
  at_id-other id [] h = refl
  at_id-other id (row ∷ rows) h =
      let rest = at_id-other id rows h in
      let same = (set_at-keys row).0 in
      elim (Bool-cases (row.id == id)) [
        | inl e ↦
            let off : (row.id == key) ≡ false =
              ground (arith, h, e, eq_iff row.id id, eq_iff row.id key, eq_iff key id) in
            rw (off, e) (ap (◌∷◌ row) rest)
        | inr e ↦ rw (same, e) rest
      ]

  pub coalesce-or_else :
      (o : Option String) (old : String) → coalesce o old ≡ Business.or_else o old
  coalesce-or_else none old = refl
  coalesce-or_else (some new) old = refl

  pub set_row-patched :
      (clock : ℕ) (row : BusinessRow) (b : Business)
      → SameRow row b
      → SameRow (set_row patch now row) (patched patch clock b)
  unfolding set_row patched
  set_row-patched clock row b same =
      ap (set_row patch now) same
      ∙ rw
          (
            coalesce-or_else patch.business_name b.business_name,
            coalesce-or_else patch.business_type b.business_type,
            coalesce-or_else patch.description b.description,
            coalesce-or_else patch.accent_color b.accent_color,
          )
          refl

  pub IdMatch-updated :
      (clock : ℕ) (found : List BusinessRow) (b : Business)
      → IdMatch key found (some b)
      → IdMatch key (update_rows key patch now found) (some (patched patch clock b))
  unfolding update_rows patched
  IdMatch-updated clock [] b m = absurd m
  IdMatch-updated clock (row ∷ []) b (here, same) =
      let known : (row.id == key) ≡ true =
        ap (λ (r : BusinessRow). r.id == key) same ∙ (eq_iff b.id key).1 here in
      rw known (here, set_row-patched clock row b same)
  IdMatch-updated clock (row ∷ other ∷ found) b m = absurd m
