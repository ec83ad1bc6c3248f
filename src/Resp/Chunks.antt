-- ===== src/Resp/Chunks.antt =====
-- Bytes without a throw in them: it does not matter into which chunks they are cut.
use mathlib.Core.Path.{subst}
use supply_chain_mangement_s.Common.{
  ℕ, ◌≤◌, ◌≡◌, ◌∙◌, refl, sym, ap, List, [], ◌∷◌, ◌++◌, append_assoc, append-nil, length, drop, inl,
  inr,
}
use supply_chain_mangement_s.Bytes.{Bytes}
use supply_chain_mangement_s.Resp.{Value, needs_more, parsed, halted, try_parse_reply}
use supply_chain_mangement_s.Resp.Consumed.{Consumes, try_parse_reply-Consumes}
use supply_chain_mangement_s.Resp.Stable.{drop-append, try_parse_reply-Kept}
use supply_chain_mangement_s.Resp.Client.{Client, shift_pending, outcome_of, on_data}
use supply_chain_mangement_s.Resp.Loop.{
  with_buffer, shift_pending-with_buffer, answered, drained, drained-parsed, drained-waits,
}

-- Complete replies, and then too few bytes for one more.
pub data Clean : Bytes → Type 0 where
  waits : {buf : Bytes} → try_parse_reply buf ≡ halted needs_more → Clean buf
  goes :
      {buf : Bytes} {value : Value} {consumed : ℕ}
      → try_parse_reply buf ≡ parsed value consumed
      → Clean (drop consumed buf)
      → Clean buf

within :
    (buf : Bytes) (value : Value) (consumed : ℕ)
    → try_parse_reply buf ≡ parsed value consumed
    → consumed ≤ length buf
within buf value consumed e = (subst (Consumes (length buf)) e (try_parse_reply-Consumes buf)).1

drop-behind :
    (buf more : Bytes) (value : Value) (consumed : ℕ)
    → try_parse_reply buf ≡ parsed value consumed
    → drop consumed (buf ++ more) ≡ drop consumed buf ++ more
drop-behind buf more value consumed e = drop-append consumed buf more (within buf value consumed e)

Clean-front : (buf more : Bytes) (all : Bytes) → all ≡ buf ++ more → Clean all → Clean buf
Clean-front buf more all e (waits h) = elim (try_parse_reply-Kept buf more) [
  | inl w ↦ waits w
  | inr same ↦ waits (sym same ∙ ap try_parse_reply (sym e) ∙ h)
]
Clean-front buf more all e (goes {value} {consumed} h rest) = elim (try_parse_reply-Kept buf more) [
  | inl w ↦ waits w
  | inr same ↦
      let h' : try_parse_reply buf ≡ parsed value consumed =
        sym same ∙ ap try_parse_reply (sym e) ∙ h in
      goes h' (
        Clean-front (drop consumed buf) more (drop consumed all)
          (ap (drop consumed) e ∙ drop-behind buf more value consumed h') rest)
]

abbrev pub arrived : Bytes → Client → Client
arrived chunk c = with_buffer (c.buffer ++ chunk) c

answered-arrived :
    (chunk : Bytes) (value : Value) (consumed : ℕ) (c : Client)
    → try_parse_reply c.buffer ≡ parsed value consumed
    → answered value consumed (arrived chunk c) ≡ arrived chunk (answered value consumed c)
answered-arrived chunk value consumed c e =
    ap (with_buffer (drop consumed (c.buffer ++ chunk)))
      (shift_pending-with_buffer (outcome_of value) (c.buffer ++ chunk) c)
    ∙ ap (λ b. with_buffer b (shift_pending (outcome_of value) c))
        (drop-behind c.buffer chunk value consumed e)

-- Parsing before a chunk arrives, and again after it, is parsing once with the chunk there.
pub drained-arrived :
    (chunk all : Bytes) (c : Client)
    → all ≡ c.buffer ++ chunk
    → Clean all
    → drained (arrived chunk (drained c)) ≡ drained (arrived chunk c)
drained-arrived chunk all c e (waits h) = elim (try_parse_reply-Kept c.buffer chunk) [
  | inl w ↦ ap (λ d. drained (arrived chunk d)) (drained-waits c w)
  | inr same ↦
      ap (λ d. drained (arrived chunk d))
        (drained-waits c (sym same ∙ ap try_parse_reply (sym e) ∙ h))
]
drained-arrived chunk all c e (goes {value} {consumed} h rest) =
    elim (try_parse_reply-Kept c.buffer chunk) [
      | inl w ↦ ap (λ d. drained (arrived chunk d)) (drained-waits c w)
      | inr same ↦
          let whole : try_parse_reply (c.buffer ++ chunk) ≡ parsed value consumed =
            ap try_parse_reply (sym e) ∙ h in
          let front : try_parse_reply c.buffer ≡ parsed value consumed = sym same ∙ whole in
          ap (λ d. drained (arrived chunk d)) (drained-parsed c value consumed front)
          ∙ drained-arrived chunk (drop consumed all) (answered value consumed c)
              (ap (drop consumed) e ∙ drop-behind c.buffer chunk value consumed front) rest
          ∙ sym (ap drained (answered-arrived chunk value consumed c front))
          ∙ sym (drained-parsed (arrived chunk c) value consumed whole)
    ]

-- The chunks that the socket delivers, one `data` event each.
unfoldable pub receive : List Bytes → Client → Client
receive [] c = c
receive (chunk ∷ chunks) c = receive chunks (on_data chunk c)

abbrev pub joined : List Bytes → Bytes
joined [] = []
joined (chunk ∷ chunks) = chunk ++ joined chunks

pub receive-drained :
    (chunks : List Bytes) (c : Client)
    → Clean (c.buffer ++ joined chunks)
    → receive chunks (drained c) ≡ drained (arrived (joined chunks) c)
unfolding receive on_data
receive-drained [] c clean = ap (λ b. drained (with_buffer b c)) (sym (append-nil c.buffer))
receive-drained (chunk ∷ chunks) c clean =
    let e = append_assoc c.buffer chunk (joined chunks) in
    ap (receive chunks) (
      drained-arrived chunk (c.buffer ++ chunk) c refl (
        Clean-front (c.buffer ++ chunk) (joined chunks) (c.buffer ++ (chunk ++ joined chunks))
          (sym e) clean))
    ∙ receive-drained chunks (arrived chunk c) (rw e clean)
    ∙ ap (λ b. drained (with_buffer b c)) e
