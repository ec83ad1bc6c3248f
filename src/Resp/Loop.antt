-- ===== src/Resp/Loop.antt =====
-- The loop of `onData`: one round of it, its end, and that it does not matter into which chunks the
-- bytes are cut.
use mathlib.Core.Path.{subst}
use supply_chain_mangement_s.Common.{
  ℕ, zero, suc, ◌≤◌, ◌≡◌, ◌⊎◌, ◌∙◌, refl, sym, ap, List, [], ◌∷◌, ◌++◌, length, drop, arith, inl,
  inr,
}
use supply_chain_mangement_s.Bytes.{Bytes}
use supply_chain_mangement_s.Resp.{
  Value, needs_more, unsupported, stray, Parsed, parsed, halted, try_parse_reply,
}
use supply_chain_mangement_s.Resp.Consumed.{Consumes, length-drop, try_parse_reply-Consumes}
use supply_chain_mangement_s.Resp.Client.{
  Client, Settled, rejected, unsupported_byte, settle_next, shift_pending, outcome_of, parse_loop,
  on_data,
}

abbrev pub with_buffer : Bytes → Client → Client
with_buffer bytes c = record c { buffer = bytes }

pub shift_pending-with_buffer :
    (outcome : ℕ → Settled) (bytes : Bytes) (c : Client)
    → shift_pending outcome (with_buffer bytes c) ≡ with_buffer bytes (shift_pending outcome c)
unfolding shift_pending
shift_pending-with_buffer outcome bytes c = go c.pending
  where
    go :
        (pending : List ℕ)
        → settle_next outcome pending (with_buffer bytes c)
          ≡ with_buffer bytes (settle_next outcome pending c)
    go [] = refl
    go (caller ∷ others) = refl

-- The state after a round that parsed a value.
abbrev pub answered : Value → ℕ → Client → Client
answered value consumed c =
    with_buffer (drop consumed c.buffer) (shift_pending (outcome_of value) c)

abbrev after_parse : (Client → Client) → Client → Parsed → Client
after_parse next c (parsed value consumed) = next (answered value consumed c)
after_parse next c (halted needs_more) = c
after_parse next c (halted (unsupported byte)) =
    with_buffer [] (shift_pending (λ caller. rejected caller (unsupported_byte byte)) c)
after_parse next c (halted stray) = c

parse_loop_lem :
    (fuel : ℕ) (c : Client)
    → parse_loop (suc fuel) c ≡ after_parse (parse_loop fuel) c (try_parse_reply c.buffer)
unfolding parse_loop
parse_loop_lem fuel c = go (try_parse_reply c.buffer)
  where
    go :
        (out : Parsed)
        → (elim out [
          | parsed value consumed ↦
              parse_loop fuel
                (shift_pending (outcome_of value) (record c { buffer = drop consumed c.buffer }))
          | halted needs_more ↦ c
          | halted (unsupported byte) ↦
              shift_pending
                (λ caller. rejected caller (unsupported_byte byte))
                (record c { buffer = [] })
          | halted stray ↦ c
        ])
          ≡ after_parse (parse_loop fuel) c out
    go (parsed value consumed) =
        ap (parse_loop fuel)
          (shift_pending-with_buffer (outcome_of value) (drop consumed c.buffer) c)
    go (halted needs_more) = refl
    go (halted (unsupported byte)) =
        shift_pending-with_buffer (λ caller. rejected caller (unsupported_byte byte)) [] c
    go (halted stray) = refl

after_parse-agree :
    (first second : Client → Client) (c : Client) (out : Parsed)
    → Consumes (length c.buffer) out
    → ((value : Value) (consumed : ℕ)
        → 1 ≤ consumed
        → consumed ≤ length c.buffer
        → first (answered value consumed c) ≡ second (answered value consumed c))
    → after_parse first c out ≡ after_parse second c out
after_parse-agree first second c (parsed value consumed) h agree = agree value consumed h.0 h.1
after_parse-agree first second c (halted needs_more) h agree = refl
after_parse-agree first second c (halted (unsupported byte)) h agree = refl
after_parse-agree first second c (halted stray) h agree = refl

parse_loop-empty : (fuel : ℕ) (c : Client) → c.buffer ≡ [] → parse_loop fuel c ≡ c
parse_loop-empty zero c e = unfold parse_loop in refl
parse_loop-empty (suc fuel) c e =
    parse_loop_lem fuel c
    ∙ ap (λ b. after_parse (parse_loop fuel) c (try_parse_reply b)) e
    ∙ unfold try_parse_reply in refl

empty_of_length : (b : Bytes) → length b ≤ 0 → b ≡ []
empty_of_length [] h = refl
empty_of_length (x ∷ b) h = absurd (omega arith)

parse_loop-fuel :
    (fuel enough : ℕ) (c : Client)
    → length c.buffer ≤ fuel
    → length c.buffer ≤ enough
    → parse_loop fuel c ≡ parse_loop enough c
parse_loop-fuel zero enough c h k =
    parse_loop-empty 0 c (empty_of_length c.buffer h)
    ∙ sym (parse_loop-empty enough c (empty_of_length c.buffer h))
parse_loop-fuel (suc fuel) zero c h k =
    parse_loop-empty (suc fuel) c (empty_of_length c.buffer k)
    ∙ sym (parse_loop-empty 0 c (empty_of_length c.buffer k))
parse_loop-fuel (suc fuel) (suc enough) c h k =
    parse_loop_lem fuel c
    ∙ after_parse-agree (parse_loop fuel) (parse_loop enough) c (try_parse_reply c.buffer)
        (try_parse_reply-Consumes c.buffer)
        (λ value consumed some_bytes within.
          parse_loop-fuel fuel enough (answered value consumed c)
            (omega (arith, length-drop consumed c.buffer))
            (omega (arith, length-drop consumed c.buffer)))
    ∙ sym (parse_loop_lem enough c)

-- The loop with fuel for its buffer.
abbrev pub drained : Client → Client
drained c = parse_loop (length c.buffer) c

drained_lem : (c : Client) → drained c ≡ after_parse drained c (try_parse_reply c.buffer)
drained_lem c =
    parse_loop-fuel (length c.buffer) (suc (length c.buffer)) c (omega arith) (omega arith)
    ∙ parse_loop_lem (length c.buffer) c
    ∙ after_parse-agree (parse_loop (length c.buffer)) drained c (try_parse_reply c.buffer)
        (try_parse_reply-Consumes c.buffer)
        (λ value consumed some_bytes within.
          parse_loop-fuel (length c.buffer) (length (drop consumed c.buffer))
            (answered value consumed c) (omega (arith, length-drop consumed c.buffer))
            (omega arith))

pub drained-parsed :
    (c : Client) (value : Value) (consumed : ℕ)
    → try_parse_reply c.buffer ≡ parsed value consumed
    → drained c ≡ drained (answered value consumed c)
drained-parsed c value consumed e = drained_lem c ∙ ap (after_parse drained c) e

pub drained-waits : (c : Client) → try_parse_reply c.buffer ≡ halted needs_more → drained c ≡ c
drained-waits c e = drained_lem c ∙ ap (after_parse drained c) e

pub drained-unsupported :
    (c : Client) (byte : ℕ)
    → try_parse_reply c.buffer ≡ halted (unsupported byte)
    → drained c
      ≡ with_buffer [] (shift_pending (λ caller. rejected caller (unsupported_byte byte)) c)
drained-unsupported c byte e = drained_lem c ∙ ap (after_parse drained c) e

-- Nothing more to do: the buffer holds no complete reply.
abbrev pub AtRest : Parsed → Type 0
AtRest out = (out ≡ halted needs_more) ⊎ (out ≡ halted stray)

try_empty : AtRest (try_parse_reply [])
unfolding try_parse_reply
try_empty = inl refl

after_parse-AtRest :
    (next : Client → Client) (c : Client) (out : Parsed)
    → try_parse_reply c.buffer ≡ out
    → ((value : Value) (consumed : ℕ)
        → out ≡ parsed value consumed
        → AtRest (try_parse_reply (next (answered value consumed c)).buffer))
    → AtRest (try_parse_reply (after_parse next c out).buffer)
after_parse-AtRest next c (parsed value consumed) e rest = rest value consumed refl
after_parse-AtRest next c (halted needs_more) e rest = inl e
after_parse-AtRest next c (halted (unsupported byte)) e rest = try_empty
after_parse-AtRest next c (halted stray) e rest = inr e

parse_loop-AtRest :
    (fuel : ℕ) (c : Client)
    → length c.buffer ≤ fuel
    → AtRest (try_parse_reply (parse_loop fuel c).buffer)
parse_loop-AtRest zero c h =
    subst (λ (b : Bytes). AtRest (try_parse_reply b))
      (sym (empty_of_length c.buffer h)
        ∙ sym (ap (λ (d : Client). d.buffer) (parse_loop-empty 0 c (empty_of_length c.buffer h))))
      try_empty
parse_loop-AtRest (suc fuel) c h = rw (parse_loop_lem fuel c) (
    after_parse-AtRest (parse_loop fuel) c (try_parse_reply c.buffer) refl (λ value consumed e.
      let used = subst (Consumes (length c.buffer)) e (try_parse_reply-Consumes c.buffer) in
      parse_loop-AtRest fuel (answered value consumed c)
        (omega (arith, length-drop consumed c.buffer))))

-- After any bytes the loop has ended by its own test, not for want of fuel: the buffer then holds no
-- complete reply and nothing that throws, whatever was in it before (a bulk length outside the
-- protocol apart).
pub on_data-AtRest :
    (chunk : Bytes) (c : Client) → AtRest (try_parse_reply (on_data chunk c).buffer)
unfolding on_data
on_data-AtRest chunk c =
    parse_loop-AtRest (length (c.buffer ++ chunk)) (with_buffer (c.buffer ++ chunk) c) (omega arith)
