-- ===== src/Redis/NoOversell.antt =====
-- Any number of callers that reserve from one stock key: Redis runs the script whole, one call
-- after the other, so every interleaving of the callers is a sequence of script runs.
use supply_chain_mangement_s.Common.{
  ℕ, ◌+◌, ◌-◌, ◌*◌, ℤ, pos, ◌+ℤ◌, ◌-ℤ◌, ◌≤ℤ◌, ltb, String, ◌≡◌, ◌≢◌, Bool, true, false, some, List,
  [], ◌∷◌, arith, eq_iff, All, inl, inr, Bool-cases, if◌then◌else◌, int_laws, length,
}
use Prim.Native.Nat.{min}
use supply_chain_mangement_s.Dict.{lookup, insert, lookup-insert}
use supply_chain_mangement_s.Exec.{Result, ok}
use supply_chain_mangement_s.Redis.{Redis, ReserveStatus, ok_reserved, eval_reserve}
use supply_chain_mangement_s.Redis.Laws.{
  IsPersistent, level, hold, reserve_outcome, eval_reserve-persistent,
}

-- One call: when it runs, its fresh reservation key, the quantity, the time to live.
pub record Request : Type 0 where
  pub now : ℕ
  pub resv_key : String
  pub qty : ℤ
  pub ttl : ℕ

abbrev pub attempt : String → Request → Redis → Result (ReserveStatus × ℤ) × Redis
attempt s q r = eval_reserve q.now s q.resv_key q.qty q.ttl r

-- Whether a call was accepted.
abbrev pub is_accepted : Result (ReserveStatus × ℤ) → Bool
is_accepted (ok (ok_reserved, n)) = true
is_accepted _ = false

-- The store after the calls, and the quantity and the number of the accepted ones.
unfoldable pub serve : String → List Request → Redis → Redis
serve s [] r = r
serve s (q ∷ qs) r = serve s qs (attempt s q r).1

unfoldable pub sold : String → List Request → Redis → ℤ
sold s [] r = pos 0
sold s (q ∷ qs) r =
    (if is_accepted (attempt s q r).0 then q.qty else pos 0) +ℤ sold s qs (attempt s q r).1

unfoldable pub accepted : String → List Request → Redis → ℕ
accepted s [] r = 0
accepted s (q ∷ qs) r =
    (if is_accepted (attempt s q r).0 then 1 else 0) + accepted s qs (attempt s q r).1

ℤ-zero : (a : ℤ) → a -ℤ pos 0 ≡ a
ℤ-zero a = omega int_laws

ℤ-nonneg : (a b : ℤ) → b ≤ℤ a → pos 0 ≤ℤ a -ℤ b
ℤ-nonneg a b h = omega int_laws

ℤ-sub_sub : (a b c : ℤ) → a -ℤ b -ℤ c ≡ a -ℤ (b +ℤ c)
ℤ-sub_sub a b c = omega int_laws

module _ (s : String) (q : Request) (r : Redis) (ne : s ≢ q.resv_key) (h : IsPersistent s r) where
  attempt-IsPersistent : IsPersistent s (attempt s q r).1
  unfolding reserve_outcome hold
  attempt-IsPersistent = rw (eval_reserve-persistent q.now s q.resv_key q.qty q.ttl r h) (
      ground (
        arith,
        h,
        eq_iff q.resv_key s,
        lookup-insert q.resv_key s (q.now + q.ttl * 1000) r.expires_at,
      ))

  lookup-attempt :
      lookup s (attempt s q r).1.store
      ≡ (if is_accepted (attempt s q r).0 then some (level s r -ℤ q.qty) else lookup s r.store)
  unfolding reserve_outcome hold
  lookup-attempt = rw (eval_reserve-persistent q.now s q.resv_key q.qty q.ttl r h) (
      ground (
        arith,
        eq_iff q.resv_key s,
        eq_iff s s,
        lookup-insert q.resv_key s q.qty (insert s (level s r -ℤ q.qty) r.store),
        lookup-insert s s (level s r -ℤ q.qty) r.store,
      ))

  accepted_fits : is_accepted (attempt s q r).0 ≡ true → q.qty ≤ℤ level s r
  unfolding reserve_outcome hold
  accepted_fits = rw (eval_reserve-persistent q.now s q.resv_key q.qty q.ttl r h) (ground arith)

  level-attempt :
      level s (attempt s q r).1
      ≡ level s r -ℤ (if is_accepted (attempt s q r).0 then q.qty else pos 0)
  level-attempt = elim (Bool-cases (is_accepted (attempt s q r).0)) [
    | inl e ↦ ground (arith, e, lookup-attempt, ℤ-zero (level s r))
    | inr e ↦ ground (arith, e, lookup-attempt, ℤ-zero (level s r))
  ]

  level-attempt-nonneg : pos 0 ≤ℤ level s r → pos 0 ≤ℤ level s (attempt s q r).1
  level-attempt-nonneg nonneg =
      rw level-attempt (elim (Bool-cases (is_accepted (attempt s q r).0)) [
        | inl e ↦ rw e (ℤ-nonneg (level s r) q.qty (accepted_fits e))
        | inr e ↦ rw e (rw ℤ-zero nonneg)
      ])

abbrev pub AreFresh : String → List Request → Type 0
AreFresh s = All (λ q. s ≢ q.resv_key)

-- After any sequence of reserve calls on a stock key that does not expire, whatever their times,
-- quantities and times to live, the stored count is the initial count less the sum of the
-- quantities of the accepted calls, and it is not negative if it was not negative before, provided
-- that no call uses the stock key as its reservation key.
pub serve-no_oversell :
    (s : String) (qs : List Request) (r : Redis)
    → AreFresh s qs
    → IsPersistent s r
    → pos 0 ≤ℤ level s r
    → (level s (serve s qs r) ≡ level s r -ℤ sold s qs r) × (pos 0 ≤ℤ level s (serve s qs r))
unfolding serve sold
serve-no_oversell s [] r fresh h nonneg = (omega int_laws, nonneg)
serve-no_oversell s (q ∷ qs) r fresh h nonneg =
    let step = level-attempt s q r fresh.0 h in
    let ih =
      serve-no_oversell s qs (attempt s q r).1 fresh.1 (attempt-IsPersistent s q r fresh.0 h)
        (level-attempt-nonneg s q r fresh.0 h nonneg) in
    (rw (ih.0, step) (ℤ-sub_sub (level s r) _ (sold s qs (attempt s q r).1)), ih.1)

-- The calls that each ask for one piece.
abbrev pub AreUnits : List Request → Type 0
AreUnits = All (λ q. q.qty ≡ pos 1)

unit-accepted :
    (s : String) (q : Request) (r : Redis) (n : ℕ)
    → q.qty ≡ pos 1
    → IsPersistent s r
    → lookup s r.store ≡ some (pos n)
    → is_accepted (attempt s q r).0 ≡ ltb 0 n
unfolding reserve_outcome
unit-accepted s q r n one h e =
    rw (eval_reserve-persistent q.now s q.resv_key q.qty q.ttl r h) (ground (arith, one, e))

lookup-unit :
    (s : String) (q : Request) (r : Redis) (n : ℕ)
    → s ≢ q.resv_key
    → q.qty ≡ pos 1
    → IsPersistent s r
    → lookup s r.store ≡ some (pos n)
    → lookup s (attempt s q r).1.store ≡ some (pos (n - 1))
unfolding ◌-ℤ◌
lookup-unit s q r n ne one h e =
    ground (arith, lookup-attempt s q r ne h, unit-accepted s q r n one h e, one, e)

-- When n pieces are in stock under a key that does not expire and any number of calls each ask for
-- one piece, in any order and at any times, under reservation keys other than the stock key,
-- exactly min n (number of calls) of them are accepted.
pub accepted-units :
    (s : String) (n : ℕ) (qs : List Request) (r : Redis)
    → AreFresh s qs
    → AreUnits qs
    → IsPersistent s r
    → lookup s r.store ≡ some (pos n)
    → accepted s qs r ≡ min n (length qs)
unfolding accepted
accepted-units s n [] r fresh one h e = ground arith
accepted-units s n (q ∷ qs) r fresh one h e =
    let here = unit-accepted s q r n one.0 h e in
    let ih =
      accepted-units s (n - 1) qs (attempt s q r).1 fresh.1 one.1
        (attempt-IsPersistent s q r fresh.0 h) (lookup-unit s q r n fresh.0 one.0 h e) in
    rw (here, ih) (ground arith)
