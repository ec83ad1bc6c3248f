-- ===== src/Resp/Delivery.antt =====
-- Who gets which reply: the waiting callers are settled in the order of their commands, however the
-- socket cuts the replies into chunks.
use supply_chain_mangement_s.Common.{
  ℕ, Bool, false, ◌||◌, ◌≡◌, ◌∙◌, refl, sym, ap, List, [], ◌∷◌, ◌++◌, append_assoc, append-nil,
  length, drop, some, All, arith,
}
use supply_chain_mangement_s.Bytes.{Bytes, ◌===◌, crlf}
use supply_chain_mangement_s.Bytes.Numerals.{IsLine}
use supply_chain_mangement_s.Bytes.Lines.{cut_line-crlf}
use supply_chain_mangement_s.Resp.{
  text, numeric, null, array, needs_more, unsupported, halted, parse_typed, parse_reply,
  try_parse_reply,
}
use supply_chain_mangement_s.Resp.Wire.{
  Reply, simple, error, integer, bulk, null_bulk, null_array, many, print, value_of, values_of,
  IsReply,
}
use supply_chain_mangement_s.Resp.RoundTrip.{drop-length, try_parse_reply-print}
use supply_chain_mangement_s.Resp.Client.{
  Client, Settled, resolved, rejected, redis_reply, unsupported_byte, shift_pending, outcome_of,
  on_data,
}
use supply_chain_mangement_s.Resp.Loop.{
  with_buffer, answered, drained, drained-parsed, drained-waits, drained-unsupported,
}
use supply_chain_mangement_s.Resp.Chunks.{Clean, waits, goes, receive, joined, receive-drained}

abbrev pub print_all : List Reply → Bytes
print_all [] = []
print_all (r ∷ rs) = print r ++ print_all rs

-- What the caller of a reply gets: an error rejects it, any other value resolves it.
abbrev pub answer : Reply → ℕ → Settled
answer (error message) caller = rejected caller (redis_reply message)
answer (simple line) caller = resolved caller (text line)
answer (integer n) caller = resolved caller (numeric (some n))
answer (bulk bytes) caller = resolved caller (text bytes)
answer null_bulk caller = resolved caller null
answer null_array caller = resolved caller null
answer (many rs) caller = resolved caller (array (values_of rs))

outcome-answer : (r : Reply) (caller : ℕ) → outcome_of (value_of r) caller ≡ answer r caller
unfolding outcome_of value_of
outcome-answer (simple line) caller = refl
outcome-answer (error message) caller = refl
outcome-answer (integer n) caller = refl
outcome-answer (bulk bytes) caller = refl
outcome-answer null_bulk caller = refl
outcome-answer null_array caller = refl
outcome-answer (many rs) caller = refl

-- Each caller with its reply, in order.
abbrev pub answers : List ℕ → List Reply → List Settled
answers [] rs = []
answers (caller ∷ callers) [] = []
answers (caller ∷ callers) (r ∷ rs) = answer r caller ∷ answers callers rs

abbrev pub settling : List ℕ → List Settled → Bytes → Client → Client
settling pending more rest c = record c {
  buffer = rest;
  pending = pending;
  settled = c.settled ++ more;
}

abbrev waiting : Bytes → List ℕ → Client → Client
waiting bytes pending c = record c { buffer = bytes; pending = pending }

answered-waiting :
    (r : Reply) (rest : Bytes) (caller : ℕ) (pending : List ℕ) (c : Client)
    → answered (value_of r) (length (print r)) (waiting (print r ++ rest) (caller ∷ pending) c)
      ≡ settling pending (answer r caller ∷ []) rest c
unfolding shift_pending
answered-waiting r rest caller pending c =
    ap (λ s. settling pending (s ∷ []) (drop (length (print r)) (print r ++ rest)) c)
      (outcome-answer r caller)
    ∙ ap (λ b. settling pending (answer r caller ∷ []) b c) (drop-length (print r) rest)

-- Printed replies at the front of the buffer go to the first callers that wait.
drained-print_all :
    (callers others : List ℕ) (replies : List Reply) (rest : Bytes) (c : Client)
    → All IsReply replies
    → length callers ≡ length replies
    → drained (waiting (print_all replies ++ rest) (callers ++ others) c)
      ≡ drained (settling others (answers callers replies) rest c)
drained-print_all [] others [] rest c h e =
    ap (λ s. drained (record c { buffer = rest; pending = others; settled = s }))
      (sym (append-nil c.settled))
drained-print_all [] others (r ∷ replies) rest c h e = absurd (omega arith)
drained-print_all (caller ∷ callers) others [] rest c h e = absurd (omega arith)
drained-print_all (caller ∷ callers) others (r ∷ replies) rest c h e =
    let one = answer r caller ∷ [] in
    ap (λ b. drained (waiting b (caller ∷ (callers ++ others)) c))
      (append_assoc (print r) (print_all replies) rest)
    ∙ drained-parsed
        (waiting (print r ++ (print_all replies ++ rest)) (caller ∷ (callers ++ others)) c)
        (value_of r) (length (print r)) (try_parse_reply-print r (print_all replies ++ rest) h.0)
    ∙ ap drained (answered-waiting r (print_all replies ++ rest) caller (callers ++ others) c)
    ∙ drained-print_all callers others replies rest (settling (callers ++ others) one [] c) h.1
        (omega arith)
    ∙ ap (λ s. drained (record c { buffer = rest; pending = others; settled = s }))
        (append_assoc c.settled one (answers callers replies))

try_empty : try_parse_reply [] ≡ halted needs_more
unfolding try_parse_reply
try_empty = refl

Clean-print_all : (replies : List Reply) → All IsReply replies → Clean (print_all replies)
Clean-print_all [] h = waits try_empty
Clean-print_all (r ∷ replies) h =
    goes (try_parse_reply-print r (print_all replies) h.0)
      (rw (drop-length (print r) (print_all replies)) (Clean-print_all replies h.1))

drained-empty : (c : Client) → c.buffer ≡ [] → drained c ≡ c
drained-empty c e = drained-waits c (ap try_parse_reply e ∙ try_empty)

-- The bytes of well-formed replies, cut into chunks in any way, reach a client with an empty buffer
-- on which at least as many callers wait: then the first callers get the replies' values, each its
-- own, in the order of their commands (an error reply rejects its caller), the other callers still
-- wait, and no byte is left over.
pub receive-print_all :
    (callers others : List ℕ) (replies : List Reply) (chunks : List Bytes) (c : Client)
    → All IsReply replies
    → length callers ≡ length replies
    → c.buffer ≡ []
    → c.pending ≡ callers ++ others
    → joined chunks ≡ print_all replies
    → receive chunks c
      ≡ record c { buffer = []; pending = others; settled = c.settled ++ answers callers replies }
receive-print_all callers others replies chunks c h e empty pending j =
    let arrives : c.buffer ++ joined chunks ≡ print_all replies =
      ap (λ b. b ++ joined chunks) empty ∙ j in
    ap (receive chunks) (sym (drained-empty c empty))
    ∙ receive-drained chunks c (rw arrives (Clean-print_all replies h))
    ∙ ap (λ b. drained (with_buffer b c)) (arrives ∙ sym (append-nil (print_all replies)))
    ∙ ap (λ p. drained (waiting (print_all replies ++ []) p c)) pending
    ∙ drained-print_all callers others replies [] c h e
    ∙ drained-empty (settling others (answers callers replies) [] c) refl

-- The type bytes that the parser knows.
abbrev pub is_reply_type : ℕ → Bool
is_reply_type type =
    type === b'+' || type === b'-' || type === b':' || type === b'$' || type === b'*'

unsupported_line :
    (type : ℕ) (line rest : Bytes)
    → is_reply_type type ≡ false
    → IsLine line
    → try_parse_reply (type ∷ (line ++ crlf rest)) ≡ halted (unsupported type)
unfolding try_parse_reply parse_reply parse_typed
unsupported_line type line rest unknown h = rw (cut_line-crlf line rest h) (ground (arith, unknown))

-- A line with an unknown type byte behind complete replies, all in one chunk: the callers of the
-- replies get them, the next caller is rejected with that byte, the rest of the buffer is dropped,
-- and the other callers still wait.
pub on_data-unsupported :
    (callers : List ℕ) (next : ℕ) (others : List ℕ) (replies : List Reply) (type : ℕ)
    (line rest : Bytes) (c : Client)
    → All IsReply replies
    → length callers ≡ length replies
    → is_reply_type type ≡ false
    → IsLine line
    → c.buffer ≡ []
    → c.pending ≡ callers ++ next ∷ others
    → on_data (print_all replies ++ (type ∷ (line ++ crlf rest))) c ≡ record c {
      buffer = [];
      pending = others;
      settled =
          c.settled ++ (answers callers replies ++ rejected next (unsupported_byte type) ∷ []);
    }
unfolding on_data
on_data-unsupported callers next others replies type line rest c h e unknown l empty pending =
    let bad = type ∷ (line ++ crlf rest) in
    ap (λ b. drained (with_buffer (b ++ (print_all replies ++ bad)) c)) empty
    ∙ ap (λ p. drained (waiting (print_all replies ++ bad) p c)) pending
    ∙ drained-print_all callers (next ∷ others) replies bad c h e
    ∙ drained-unsupported (settling (next ∷ others) (answers callers replies) bad c) type
        (unsupported_line type line rest unknown l)
    ∙ unfold shift_pending in
      ap (λ s. record c { buffer = []; pending = others; settled = s })
        (append_assoc c.settled (answers callers replies)
          (rejected next (unsupported_byte type) ∷ []))
