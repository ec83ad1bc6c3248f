-- ===== src/Postgres/Grouping.antt =====
-- The group of a key is the rows with that key, in their order; and rows that come in another order
-- give the groups in another order.
use mathlib.Core.List.Permᴰ
use mathlib.Core.List.{Permᴰ}
use supply_chain_mangement_s.Common.{
  suc, ◌≤◌, length, String, ◌≡◌, ◌∙◌, refl, sym, ap, Bool, some, List, [], ◌∷◌, ◌++◌, map,
  append_assoc, append-nil, keep, arith, ◌==◌, eq_iff, Bool-cases, inl, inr, if◌then◌else◌,
}
use supply_chain_mangement_s.Dict.{Dict, lookup, insert, lookup-insert}
use supply_chain_mangement_s.Postgres.{listed, grouped}

module _ {ℓ κ} {A : Type ℓ} {B : Type κ} (key : A → String) (value : A → B) where
  pub grouped_lem :
      (asked : String) (rows : List A) (groups : Dict (List B))
      → listed (lookup asked (grouped key value rows groups))
        ≡ listed (lookup asked groups) ++ map value (keep (λ row. key row == asked) rows)
  unfolding grouped
  grouped_lem asked [] groups = sym (append-nil (listed (lookup asked groups)))
  grouped_lem asked (row ∷ rows) groups =
      let list = listed (lookup (key row) groups) ++ value row ∷ [] in
      grouped_lem asked rows (insert (key row) list groups)
      ∙ ap (λ o. listed o ++ map value (keep (λ r. key r == asked) rows))
          (lookup-insert (key row) asked list groups)
      ∙ elim (Bool-cases (key row == asked)) [
        | inl e ↦
            ap
              (λ (b : Bool).
                listed (if b then some list else lookup asked groups)
                ++ map value (keep (λ r. key r == asked) rows))
              e
            ∙ append_assoc (listed (lookup (key row) groups)) (value row ∷ []) _
            ∙ ap
                (λ k.
                  listed (lookup k groups)
                  ++ (value row ∷ map value (keep (λ r. key r == asked) rows)))
                ((eq_iff (key row) asked).0 e)
            ∙ ap
                (λ (b : Bool).
                  listed (lookup asked groups)
                  ++ map value (
                      if b
                      then row ∷ keep (λ r. key r == asked) rows
                      else keep (λ r. key r == asked) rows))
                (sym e)
        | inr e ↦ rw e refl
      ]

module _ {ℓ} {A : Type ℓ} (p : A → Bool) where
  keep-cong :
      (a b : A) (xs ys : List A)
      → a ≡ b
      → Permᴰ (keep p xs) (keep p ys)
      → Permᴰ (keep p (a ∷ xs)) (keep p (b ∷ ys))
  keep-cong a b xs ys e h = elim (Bool-cases (p b)) [
    | inl t ↦ rw (e, t) (Permᴰ.cons refl h)
    | inr f ↦ rw (e, f) h
  ]

  keep-swap :
      (a b a' b' : A) (l : List A)
      → a ≡ b'
      → b ≡ a'
      → Permᴰ (keep p (a ∷ b ∷ l)) (keep p (a' ∷ b' ∷ l))
  keep-swap a b a' b' l e f = elim (Bool-cases (p b')) [
    | inl t ↦ elim (Bool-cases (p a')) [
      | inl t' ↦ rw (e, f, t, t') (Permᴰ.swap refl refl)
      | inr f' ↦ rw (e, f, t, f') (Permᴰ.refl _)
    ]
    | inr n ↦ rw (e, f, n) (Permᴰ.refl _)
  ]

  pub Perm-keep : {xs ys : List A} → Permᴰ xs ys → Permᴰ (keep p xs) (keep p ys)
  Perm-keep Permᴰ.nil = Permᴰ.nil
  Perm-keep (Permᴰ.cons {a} {b} e h) = keep-cong a b _ _ e (Perm-keep h)
  Perm-keep (Permᴰ.swap {a} {b} {l} e f) = keep-swap a b _ _ l e f
  Perm-keep (Permᴰ.trans h k) = Permᴰ.trans (Perm-keep h) (Perm-keep k)

module _ {ℓ} {A : Type ℓ} where
  length-Perm : {xs ys : List A} → Permᴰ xs ys → length xs ≡ length ys
  length-Perm Permᴰ.nil = refl
  length-Perm (Permᴰ.cons e h) = ap suc (length-Perm h)
  length-Perm (Permᴰ.swap e f) = refl
  length-Perm (Permᴰ.trans h k) = length-Perm h ∙ length-Perm k

  -- One row, or none, comes in one order only.
  pub Perm-single : {xs ys : List A} → Permᴰ xs ys → length ys ≤ 1 → xs ≡ ys
  Perm-single Permᴰ.nil small = refl
  Perm-single (Permᴰ.cons {a} {b} {l₁} {l₂} e h) small =
      ap (λ x. x ∷ l₁) e ∙ ap (◌∷◌ b) (Perm-single h (omega arith))
  Perm-single (Permᴰ.swap e f) small = absurd (omega arith)
  Perm-single (Permᴰ.trans h k) small =
      Perm-single h (omega (arith, length-Perm k)) ∙ Perm-single k small
