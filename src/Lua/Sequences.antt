-- ===== src/Lua/Sequences.antt =====
-- Any calls of the two scripts, one after the other, on a server and in process.
use supply_chain_mangement_s.Common.{ℕ, ◌≤◌, ℤ, String, ◌≡◌, ◌∙◌, refl, ap, List, [], ◌∷◌, arith}
use supply_chain_mangement_s.Exec.{Result}
use supply_chain_mangement_s.Redis.{
  Redis, ReserveStatus, ReleaseStatus, Mode, eval_reserve, eval_release,
}
use supply_chain_mangement_s.Lua.{Commands, Documented, IsTtl, reserve_script, release_script}
use supply_chain_mangement_s.Lua.InProcess.{Off}
use supply_chain_mangement_s.Lua.Equivalent.{SameValues, reserve-SameRun, release-SameRun}

pub data Call : Type 0 where
  reserves : (stock_key resv_key : String) → (qty : ℤ) → (ttl_seconds : ℕ) → Call
  resolves : (stock_key resv_key : String) → Mode → Call

pub data Answer : Type 0 where
  of_reserve : Result (ReserveStatus × ℤ) → Answer
  of_release : Result (ReleaseStatus × ℤ) → Answer

-- One call in process.
unfoldable pub mem_call : ℕ → Call → Redis → Answer × Redis
unfolding eval_reserve eval_release
mem_call now (reserves stock_key resv_key qty ttl) r =
    let (reply, r') = eval_reserve now stock_key resv_key qty ttl r in (of_reserve reply, r')
mem_call now (resolves stock_key resv_key mode) r =
    let (reply, r') = eval_release now stock_key resv_key mode r in (of_release reply, r')

-- The answers of calls at their times, in process.
unfoldable pub mem_calls : List (ℕ × Call) → Redis → List Answer
unfolding mem_call
mem_calls [] r = []
mem_calls ((now, call) ∷ calls) r =
    let (answer, r') = mem_call now call r in answer ∷ mem_calls calls r'

-- A time to live of a second or more, and no call at the very millisecond at which a key that it
-- reads expires.
abbrev pub Timely : ℕ → Call → Redis → Type 0
Timely now (reserves stock_key resv_key qty ttl) r = IsTtl ttl × Off now stock_key r
Timely now (resolves stock_key resv_key mode) r = Off now stock_key r × Off now resv_key r

-- The times do not decrease, and each call is timely in the state in which it is made.
unfoldable pub Regular : ℕ → List (ℕ × Call) → Redis → Type 0
unfolding mem_call
Regular since [] r = Unit
Regular since ((now, call) ∷ calls) r =
    (since ≤ now) × Timely now call r × Regular now calls (mem_call now call r).1

module _ {S : Type 0} (redis : Commands S) where
  -- One call on the server.
  unfoldable pub server_call : ℕ → Call → S → Answer × S
  unfolding reserve_script release_script
  server_call now (reserves stock_key resv_key qty ttl) s =
      let (reply, s') = reserve_script redis now stock_key resv_key qty ttl s in
      (of_reserve reply, s')
  server_call now (resolves stock_key resv_key mode) s =
      let (reply, s') = release_script redis now stock_key resv_key mode s in (of_release reply, s')

  unfoldable pub server_calls : List (ℕ × Call) → S → List Answer
  unfolding server_call
  server_calls [] s = []
  server_calls ((now, call) ∷ calls) s =
      let (answer, s') = server_call now call s in answer ∷ server_calls calls s'

  later :
      (since now : ℕ) (s : S) (r : Redis)
      → since ≤ now
      → SameValues redis since s r
      → SameValues redis now s r
  later since now s r h values = record {
    same = λ t key late. values.same t key (omega arith);
    deadlines = values.deadlines;
  }

  call_same :
      Documented redis
      → (now : ℕ) (call : Call) (s : S) (r : Redis) → SameValues redis now s r
      → Timely now call r
      → ((server_call now call s).0 ≡ (mem_call now call r).0)
        × SameValues redis now (server_call now call s).1 (mem_call now call r).1
  unfolding server_call mem_call
  call_same documented now (reserves stock_key resv_key qty ttl) s r values timely =
      let run =
        reserve-SameRun redis documented now s r values stock_key resv_key qty ttl timely.0
          timely.1 in
      (ap of_reserve run.0, run.1)
  call_same documented now (resolves stock_key resv_key mode) s r values timely =
      let run =
        release-SameRun redis documented now s r values stock_key resv_key mode timely.0 timely.1 in
      (ap of_release run.0, run.1)

  -- The Lua scripts on a server whose commands do what Redis documents, and their versions in process,
  -- reply the same to any calls at times that do not decrease, with times to live of 1 to 10^9 seconds
  -- and none at the very millisecond at which a key that it reads expires, if both show the same values
  -- from the start on, but perhaps at such a millisecond, and in process no key without a value has a
  -- deadline.
  pub server_calls-eq-mem_calls :
      Documented redis
      → (since : ℕ) (calls : List (ℕ × Call)) (s : S) (r : Redis) → SameValues redis since s r
      → Regular since calls r
      → server_calls calls s ≡ mem_calls calls r
  unfolding server_calls mem_calls Regular
  server_calls-eq-mem_calls documented since [] s r values regular = refl
  server_calls-eq-mem_calls documented since ((now, call) ∷ calls) s r values regular =
      let run =
        call_same documented now call s r (later since now s r regular.0 values) regular.1 in
      let rest =
        server_calls-eq-mem_calls documented now calls (server_call now call s).1
          (mem_call now call r).1 run.1 regular.2 in
      ap (λ answer. answer ∷ server_calls calls (server_call now call s).1) run.0
      ∙ ap (◌∷◌ (mem_call now call r).0) rest
