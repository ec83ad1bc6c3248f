-- ===== src/Resp/Client.antt =====
-- src/lib/redisClient.ts: `RawRespClient` once its socket is connected. The callers that wait on a
-- reply have numbers; `settled` records which promise was resolved or rejected, in that order, and
-- `written` the bytes given to the socket.
use supply_chain_mangement_s.Common.{
  ℕ, zero, suc, ℤ, String, Bool, true, List, [], ◌∷◌, ◌++◌, map, length, drop,
}
use supply_chain_mangement_s.Bytes.{Bytes, codes, signed}
use supply_chain_mangement_s.Resp.{
  Value, reply_error, text, numeric, null, array, needs_more, unsupported, stray, parsed, halted,
  try_parse_reply, encode_command,
}

pub data Failure : Type 0 where
  redis_reply : (message : Bytes) → Failure
  unsupported_byte : (type_byte : ℕ) → Failure
  socket_failure : String → Failure

pub data Settled : Type 0 where
  resolved : (caller : ℕ) → Value → Settled
  rejected : (caller : ℕ) → Failure → Settled

pub record Client : Type 0 where
  pub buffer : Bytes
  pub pending : List ℕ
  pub settled : List Settled
  pub written : Bytes
  pub ended : Bool

-- `failAllPending`
unfoldable pub fail_all_pending : Failure → Client → Client
fail_all_pending err c = record c {
  pending = [];
  settled = c.settled ++ map (λ caller. rejected caller err) c.pending;
}

abbrev pub settle_next : (ℕ → Settled) → List ℕ → Client → Client
settle_next outcome [] c = c
settle_next outcome (caller ∷ others) c = record c {
  pending = others;
  settled = c.settled ++ outcome caller ∷ [];
}

-- `const pending = this.pending.shift()`, and its settlement if there is one.
unfoldable pub shift_pending : (ℕ → Settled) → Client → Client
shift_pending outcome c = settle_next outcome c.pending c

-- A `RedisReplyError` rejects the caller, any other value resolves it.
unfoldable pub outcome_of : Value → ℕ → Settled
outcome_of (reply_error message) caller = rejected caller (redis_reply message)
outcome_of (text bytes) caller = resolved caller (text bytes)
outcome_of (numeric n) caller = resolved caller (numeric n)
outcome_of null caller = resolved caller null
outcome_of (array values) caller = resolved caller (array values)

-- The loop of `onData`, with fuel.
unfoldable pub parse_loop : ℕ → Client → Client
unfolding shift_pending outcome_of
parse_loop zero c = c
parse_loop (suc fuel) c = elim (try_parse_reply c.buffer) [
  | parsed value consumed ↦
      parse_loop fuel
        (shift_pending (outcome_of value) (record c { buffer = drop consumed c.buffer }))
  | halted needs_more ↦ c
  | halted (unsupported byte) ↦
      shift_pending (λ caller. rejected caller (unsupported_byte byte)) (record c { buffer = [] })
  | halted stray ↦ c
]

-- Each round consumes a byte at least, so the length of the buffer is enough.
unfoldable pub on_data : Bytes → Client → Client
unfolding parse_loop
on_data chunk c = parse_loop (length (c.buffer ++ chunk)) (record c { buffer = c.buffer ++ chunk })

-- An argument of a command: a text, or a number, which `String` turns into a text.
pub data Argument : Type 0 where
  string : Bytes → Argument
  numeral : ℤ → Argument

unfoldable pub string_of : Argument → Bytes
unfolding signed
string_of (string bytes) = bytes
string_of (numeral n) = signed n

-- `send`, after `await this.ready`.
unfoldable pub send : ℕ → List Argument → Client → Client
unfolding encode_command string_of
send caller args c = record c {
  pending = c.pending ++ caller ∷ [];
  written = c.written ++ encode_command (map string_of args);
}

unfoldable pub eval : ℕ → Bytes → ℤ → List Argument → Client → Client
unfolding send
eval caller script num_keys keys_and_args =
    send caller (string (codes "EVAL") ∷ string script ∷ numeral num_keys ∷ keys_and_args)

unfoldable pub get : ℕ → Bytes → Client → Client
unfolding send
get caller key = send caller (string (codes "GET") ∷ string key ∷ [])

unfoldable pub set : ℕ → Bytes → Bytes → Client → Client
unfolding send
set caller key value = send caller (string (codes "SET") ∷ string key ∷ string value ∷ [])

unfoldable pub del : ℕ → List Bytes → Client → Client
unfolding send
del caller keys = send caller (string (codes "DEL") ∷ map string keys)

-- `quit` up to its `await`, and after it.
unfoldable pub quit : ℕ → Client → Client
unfolding send
quit caller = send caller (string (codes "QUIT") ∷ [])

unfoldable pub end_socket : Client → Client
end_socket c = record c { ended = true }
