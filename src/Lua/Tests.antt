-- ===== src/Lua/Tests.antt =====
-- The scripts on a server that is a function of key and time. It still gives a key at the millisecond
-- of its deadline, as Redis does.
use supply_chain_mangement_s.Common.{
  ℕ, ◌+◌, ◌*◌, ℤ, pos, ◌-ℤ◌, ltb, leb, String, ◌≡◌, ◌∙◌, sym, ap, refl, Bool, true, false, ◌&&◌,
  Bool-cases, inl, inr, ◌==◌, Option, none, some, List, [], ◌∷◌, arith, if◌then◌else◌,
}
use supply_chain_mangement_s.Bytes.{◌===◌}
use supply_chain_mangement_s.Dict.{lookup, insert, erase, contains}
use supply_chain_mangement_s.Exec.{ok, err, reply_invalid_expire}
use supply_chain_mangement_s.Redis.{
  Redis, Mode, peek, is_expired, sweep, drop_key, eval_reserve, ok_reserved,
}
use supply_chain_mangement_s.Lua.{reserve_script, Commands, Documented, counted}
use supply_chain_mangement_s.Lua.Equivalent.{SameValues}
use supply_chain_mangement_s.Lua.Sequences.{
  Regular, Call, reserves, resolves, server_calls, mem_calls, server_calls-eq-mem_calls,
}

abbrev Server : Type 0
Server = String → ℕ → Option ℤ

abbrev with_key : ℕ → String → ℤ → ℕ → Server → Server
with_key now key value ttl s asked t =
    if key == asked then (if leb t (now + ttl * 1000) then some value else none) else s asked t

abbrev server : Commands Server
server = record {
  get = λ now key s. s key now;
  del = λ now key s asked t. if key == asked then none else s asked t;
  incrby =
      λ now key n s asked t. if key == asked then counted (s key now) (s key t) n else s asked t;
  decrby = λ now key n s asked t.
      if key == asked then counted (s key now) (s key t) (pos 0 -ℤ n) else s asked t;
  set_ex = λ now key value ttl s. if leb ttl 0 then none else some (with_key now key value ttl s);
}

abbrev is_some : Option Server → Bool
is_some none = false
is_some (some s) = true

abbrev or_same : Server → Option Server → Server
or_same s none = s
or_same s (some s') = s'

get-with_key :
    (now t : ℕ) (key asked : String) (value : ℤ) (ttl : ℕ) (s : Server)
    → (key == asked && t === now + ttl * 1000) ≡ false
    → with_key now key value ttl s asked t ≡ (
        if key == asked then (if ltb t (now + ttl * 1000) then some value else none) else s asked t)
get-with_key now t key asked value ttl s apart = elim (Bool-cases (key == asked)) [
  | inl e ↦ let off : (t === now + ttl * 1000) ≡ false = rw e at apart in rw e (ground (arith, off))
  | inr e ↦ rw e refl
]

taken :
    (now : ℕ) (key : String) (value : ℤ) (ttl : ℕ) (s s' : Server)
    → server.set_ex now key value ttl s ≡ some s'
    → s' ≡ with_key now key value ttl s
taken now key value ttl s s' e = elim (Bool-cases (leb ttl 0)) [
  | inl zero ↦ let no : none ≡ some s' = rw zero at e in absurd (ground (arith, ap is_some no))
  | inr more ↦ sym (ap (or_same s) (rw more at e))
]

server-Documented : Documented server
server-Documented = record {
  get-del = λ now t key asked s late. refl;
  get-incrby = λ now t key asked n s late. refl;
  get-decrby = λ now t key asked n s late. refl;
  get-set_ex = λ now t key asked value ttl s s' e late apart.
      ap (λ (u : Server). u asked t) (taken now key value ttl s s' e)
      ∙ get-with_key now t key asked value ttl s apart;
  set_ex_taken = λ now key value ttl s long.
      let more : leb ttl 0 ≡ false = ground (arith, long.0) in
      (with_key now key value ttl s, rw more refl);
  set_ex_refused = λ now key value s. refl;
}

abbrev shelf : Redis
shelf = record { store = ("stock", pos 5) ∷ []; expires_at = [] }

abbrev same_shelf : Server
same_shelf key t = if "stock" == key then some (pos 5) else none

shelf-SameValues : SameValues server 0 same_shelf shelf
unfolding peek is_expired lookup
shelf-SameValues = record { same = λ t key late off. refl; deadlines = λ key absent. refl }

-- Two reservations, one too many, a release, its repetition, and one after its deadline.
abbrev calls : List (ℕ × Call)
calls =
    (1, reserves "stock" "r1" (pos 3) 900)
    ∷ (2, reserves "stock" "r2" (pos 2) 900)
    ∷ (3, reserves "stock" "r3" (pos 1) 900)
    ∷ (4, resolves "stock" "r1" Mode.release)
    ∷ (4, resolves "stock" "r1" Mode.release)
    ∷ (900_003, resolves "stock" "r2" Mode.commit)
    ∷ []

calls-Regular : Regular 0 calls shelf
unfolding Regular lookup insert erase is_expired contains sweep drop_key ◌-ℤ◌
calls-Regular = (
  omega arith,
  ((omega arith, omega arith), refl),
  (
    omega arith,
    ((omega arith, omega arith), refl),
    (
      omega arith,
      ((omega arith, omega arith), refl),
      (omega arith, (refl, refl), (omega arith, (refl, refl), (omega arith, (refl, refl), tt))),
    ),
  ),
)

-- No time to live: the script's SET fails on the server, and not in process.
refused_on_server :
    (reserve_script server 1 "stock" "r1" (pos 3) 0 same_shelf).0 ≡ err reply_invalid_expire
unfolding reserve_script
refused_on_server = refl

accepted_in_process : (eval_reserve 1 "stock" "r1" (pos 3) 0 shelf).0 ≡ ok (ok_reserved, pos 2)
unfolding eval_reserve lookup insert erase is_expired contains ◌-ℤ◌
accepted_in_process = refl

server_calls-eq-mem_calls_example : server_calls server calls same_shelf ≡ mem_calls calls shelf
server_calls-eq-mem_calls_example =
    server_calls-eq-mem_calls server server-Documented 0 calls same_shelf shelf shelf-SameValues
      calls-Regular
