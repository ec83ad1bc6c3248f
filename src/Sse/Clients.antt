-- ===== src/Sse/Clients.antt =====
-- src/api/sseHub.ts: the set of clients as a list without repetition.
use supply_chain_mangement_s.Common.{
  ℕ, ◌≡◌, refl, Bool, false, ◌||◌, ◌&&◌, not, List, [], ◌∷◌, ◌++◌, map, arith, Bool-cases, inl, inr,
  if◌then◌else◌,
}
use supply_chain_mangement_s.Bytes.{◌===◌}
use supply_chain_mangement_s.Sse.{Written, add, delete}

abbrev pub has : ℕ → List ℕ → Bool
has client [] = false
has client (c ∷ clients) = c === client || has client clients

abbrev pub IsDistinct : List ℕ → Type 0
IsDistinct [] = Unit
IsDistinct (c ∷ clients) = (has c clients ≡ false) × IsDistinct clients

pub has-add :
    (client new : ℕ) (clients : List ℕ)
    → has client (add new clients) ≡ (new === client || has client clients)
unfolding add
has-add client new [] = ground arith
has-add client new (c ∷ clients) = ground (arith, has-add client new clients)

pub has-delete :
    (client old : ℕ) (clients : List ℕ)
    → has client (delete old clients) ≡ (not (old === client) && has client clients)
unfolding delete
has-delete client old [] = ground arith
has-delete client old (c ∷ clients) = ground (arith, has-delete client old clients)

pub add-IsDistinct :
    (new : ℕ) (clients : List ℕ) → IsDistinct clients → IsDistinct (add new clients)
unfolding add
add-IsDistinct new [] h = (refl, tt)
add-IsDistinct new (c ∷ clients) h = elim (Bool-cases (c === new)) [
  | inl e ↦ rw e h
  | inr e ↦ rw e (ground (arith, has-add c new clients, e, h.0), add-IsDistinct new clients h.1)
]

pub delete-IsDistinct :
    (old : ℕ) (clients : List ℕ) → IsDistinct clients → IsDistinct (delete old clients)
unfolding delete
delete-IsDistinct old [] h = tt
delete-IsDistinct old (c ∷ clients) h = elim (Bool-cases (c === old)) [
  | inl e ↦ rw e (delete-IsDistinct old clients h.1)
  | inr e ↦ rw e (ground (arith, has-delete c old clients, h.0), delete-IsDistinct old clients h.1)
]

module _ {P : Type 0} where
  -- What one response was given.
  abbrev pub given_to : ℕ → List (ℕ × Written P) → List (Written P)
  given_to client [] = []
  given_to client ((c, w) ∷ rest) =
      if c === client then w ∷ given_to client rest else given_to client rest

  pub given_to-append :
      (client : ℕ) (first second : List (ℕ × Written P))
      → given_to client (first ++ second) ≡ given_to client first ++ given_to client second
  given_to-append client [] second = refl
  given_to-append client ((c, w) ∷ first) second =
      ground (arith, given_to-append client first second)

  given_to-absent :
      (client : ℕ) (w : Written P) (clients : List ℕ)
      → has client clients ≡ false
      → given_to client (map (λ c. (c, w)) clients) ≡ []
  given_to-absent client w [] h = refl
  given_to-absent client w (c ∷ clients) h = ground (arith, h, given_to-absent client w clients)

  -- A broadcast gives each client one line and no one else any.
  pub given_to-all :
      (client : ℕ) (w : Written P) (clients : List ℕ)
      → IsDistinct clients
      → given_to client (map (λ c. (c, w)) clients) ≡ (if has client clients then w ∷ [] else [])
  given_to-all client w [] h = refl
  given_to-all client w (c ∷ clients) h = elim (Bool-cases (c === client)) [
    | inl e ↦
        let same : c ≡ client = ground (arith, e) in
        let absent : has client clients ≡ false = rw same at h.0 in
        rw (e, given_to-absent client w clients absent) refl
    | inr e ↦ rw e (given_to-all client w clients h.1)
  ]
