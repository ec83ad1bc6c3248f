-- ===== src/Business/Store.antt =====
-- The two maps of the store of accounts, kept in step.
use mathlib.Core.Path.{subst}
use supply_chain_mangement_s.Common.{
  ℕ, String, ◌≡◌, ◌∙◌, refl, sym, ap, true, none, some, eq_iff, eq_refl, arith, text-cases,
  Option-cases, inl, inr,
}
use supply_chain_mangement_s.Dict.{lookup, insert, lookup-insert}
use supply_chain_mangement_s.Text.{truthy}
use supply_chain_mangement_s.Business.{
  Business, BusinessStore, Patch, create, get_by_email, update, patched,
}

-- Each email leads to an account with that email, under an id that is not empty.
abbrev pub IsIndexed : BusinessStore → Type 0
IsIndexed store =
    (email id : String)
    → lookup email store.id_by_email ≡ some id
    → (truthy (some id) ≡ true)
      × ((b : Business) × (lookup id store.by_id ≡ some b) × (b.email ≡ email))

pub get_by_email-create :
    (b : Business) (store : BusinessStore)
    → truthy (some b.id) ≡ true
    → get_by_email b.email (create b store) ≡ some b
unfolding get_by_email create
get_by_email-create b store present = ground (
  arith,
  present,
  lookup-insert b.email b.email b.id store.id_by_email,
  lookup-insert b.id b.id b store.by_id,
  eq_refl b.email,
  eq_refl b.id,
)

-- Creating an account under a new id that is not empty keeps each email leading to an account with
-- that email, under an id that is not empty.
pub create-IsIndexed :
    (b : Business) (store : BusinessStore)
    → IsIndexed store
    → truthy (some b.id) ≡ true
    → lookup b.id store.by_id ≡ none
    → IsIndexed (create b store)
unfolding create
create-IsIndexed b store indexed present fresh email id found = elim (text-cases b.email email) [
  | inl same ↦
      let own : id ≡ b.id = ground (
        arith,
        found,
        lookup-insert b.email email b.id store.id_by_email,
        eq_iff b.email email,
        same,
      ) in
      (rw own present, (b, rw own (rw (lookup-insert, eq_refl) refl), same))
  | inr other ↦
      let old : lookup email store.id_by_email ≡ some id =
        ground (arith, found, lookup-insert b.email email b.id store.id_by_email, other.1) in
      let (present', (a, here, its)) = indexed email id old in
      (
        present',
        (a, ground (arith, lookup-insert b.id id b store.by_id, eq_iff b.id id, fresh, here), its),
      )
]

put-IsIndexed :
    (key : String) (old new : Business) (store : BusinessStore)
    → IsIndexed store
    → lookup key store.by_id ≡ some old
    → new.email ≡ old.email
    → IsIndexed (record store { by_id = insert key new store.by_id })
put-IsIndexed key old new store indexed at_key same email id found =
    let (present, (a, here, its)) = indexed email id found in
    elim (text-cases key id) [
      | inl e ↦
          let own : a ≡ old = cc (here, at_key, ap (λ k. lookup k store.by_id) e) in
          (
            present,
            (
              new,
              ground (arith, lookup-insert key id new store.by_id, eq_iff key id, e),
              same ∙ ap (λ (b : Business). b.email) (sym own) ∙ its,
            ),
          )
      | inr other ↦
          (present, (a, ground (arith, lookup-insert key id new store.by_id, other.1, here), its))
    ]

update-missing :
    (key : String) (patch : Patch) (now : ℕ) (store : BusinessStore)
    → lookup key store.by_id ≡ none
    → (update key patch now store).1 ≡ store
unfolding update
update-missing key patch now store e = ground (arith, e)

update-found :
    (key : String) (patch : Patch) (now : ℕ) (store : BusinessStore) (b : Business)
    → lookup key store.by_id ≡ some b
    → (update key patch now store).1
      ≡ record store { by_id = insert key (patched patch now b) store.by_id }
unfolding update
update-found key patch now store b e = ground (arith, e)

-- Updating the profile of any id, stored or not, keeps each email leading to an account with that
-- email, under an id that is not empty.
pub update-IsIndexed :
    (key : String) (patch : Patch) (now : ℕ) (store : BusinessStore)
    → IsIndexed store
    → IsIndexed (update key patch now store).1
unfolding patched
update-IsIndexed key patch now store indexed = elim (Option-cases (lookup key store.by_id)) [
  | inl e ↦ subst IsIndexed (sym (update-missing key patch now store e)) indexed
  | inr (b, e) ↦
      subst IsIndexed (sym (update-found key patch now store b e))
        (put-IsIndexed key b (patched patch now b) store indexed e refl)
]
