-- ===== src/Dict.antt =====
-- A JavaScript `Map` with text keys, in insertion order: `set` overwrites in place or appends,
-- `delete` drops the entry. The program's maps are all of this kind.
use supply_chain_mangement_s.Common.{
  String, ◌≡◌, refl, Bool, true, false, Option, none, some, List, [], ◌∷◌, arith, ◌==◌, eq_iff,
  if◌then◌else◌,
}

abbrev pub Dict {ℓ} : Type ℓ → Type ℓ
Dict V = List (String × V)

module _ {ℓ} {V : Type ℓ} where
  -- `m.get(key)`
  unfoldable pub lookup : String → Dict V → Option V
  lookup key [] = none
  lookup key ((first, value) ∷ rest) = if first == key then some value else lookup key rest

  -- `m.has(key)`
  unfoldable pub contains : String → Dict V → Bool
  contains key m = elim (lookup key m) [ none ↦ false | some _ ↦ true ]

  -- `m.set(key, value)`
  unfoldable pub insert : String → V → Dict V → Dict V
  insert key value [] = (key, value) ∷ []
  insert key value ((first, old) ∷ rest) =
      if first == key then (key, value) ∷ rest else (first, old) ∷ insert key value rest

  -- `m.delete(key)`
  unfoldable pub erase : String → Dict V → Dict V
  erase key [] = []
  erase key ((first, value) ∷ rest) =
      let others = erase key rest in if first == key then others else (first, value) ∷ others

  -- `[...m.values()]`
  unfoldable pub values : Dict V → List V
  values [] = []
  values ((first, value) ∷ rest) = value ∷ values rest

  pub lookup-insert :
      (key asked : String) (value : V) (m : Dict V)
      → lookup asked (insert key value m) ≡ (if key == asked then some value else lookup asked m)
  unfolding lookup insert
  lookup-insert key asked value [] = refl
  lookup-insert key asked value ((first, old) ∷ rest) = ground (
    arith,
    lookup-insert key asked value rest,
    eq_iff first asked,
    eq_iff first key,
    eq_iff key asked,
  )

  pub lookup-erase :
      (key asked : String) (m : Dict V)
      → lookup asked (erase key m) ≡ (if key == asked then none else lookup asked m)
  unfolding lookup erase
  lookup-erase key asked [] = ground arith
  lookup-erase key asked ((first, old) ∷ rest) =
      ground
        (arith, lookup-erase key asked rest, eq_iff first asked, eq_iff first key, eq_iff key asked)

  pub contains_lem :
      (k : String) (m : Dict V)
      → contains k m ≡ (elim (lookup k m) [ none ↦ false | some _ ↦ true ])
  unfolding contains
  contains_lem k m = refl

pub ruleset dict_laws = (lookup-insert, lookup-erase, contains_lem)
