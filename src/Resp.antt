-- ===== src/Resp.antt =====
-- src/lib/redisClient.ts: `encodeCommand` and `tryParseReply`, on bytes. An offset into the buffer
-- is the rest of the buffer from there on. A text is its bytes in UTF-8, which a server and Node
-- encode and decode. A reply whose bulk length is negative (other than -1) or no number is outside
-- the protocol; the model stops there (`stray`).
pub mod Client
pub mod Wire
mod Consumed
mod Stable
pub mod RoundTrip
pub mod Loop
pub mod Chunks
pub mod Delivery
mod Tests
use supply_chain_mangement_s.Common.{
  ℕ, zero, suc, ◌+◌, ℤ, pos, negsuc, ltb, Option, none, some, List, [], ◌∷◌, ◌++◌, length, drop,
  if◌then◌else◌,
}
use supply_chain_mangement_s.Bytes.{Bytes, ◌===◌, crlf, digits, number, cut_line}

-- The `value` of a reply; a number is `none` where `Number` gives `NaN`.
mutual
  pub data Value : Type 0 where
    text : Bytes → Value
    reply_error : (message : Bytes) → Value
    numeric : Option ℤ → Value
    null : Value
    array : Values → Value

  pub data Values : Type 0 where
    nil : Values
    cons : Value → Values → Values

-- Why there is no value: `null` (more bytes are needed), or the throw.
pub data Stop : Type 0 where
  needs_more : Stop
  unsupported : (type_byte : ℕ) → Stop
  stray : Stop

-- The outcome of `tryParseReply`: a value with what it consumed, or none.
pub data Parsed : Type 0 where
  parsed : Value → (consumed : ℕ) → Parsed
  halted : Stop → Parsed

-- The loop over the items of an array: the values with what they consumed, or an early exit.
pub data Items : Type 0 where
  collected : Values → (consumed : ℕ) → Items
  stopped : Stop → Items

abbrev pub take {ℓ} : {A : Type ℓ} → ℕ → List A → List A
take zero xs = []
take (suc n) [] = []
take (suc n) (x ∷ xs) = x ∷ take n xs

-- `case "$"`, with what the line consumed.
unfoldable pub parse_bulk : ℕ → Option ℤ → Bytes → Parsed
parse_bulk used none rest = halted stray
parse_bulk used (some (negsuc zero)) rest = parsed null used
parse_bulk used (some (negsuc (suc _))) rest = halted stray
parse_bulk used (some (pos len)) rest =
    if ltb (length rest) (len + 2)
    then halted needs_more
    else parsed (text (take len rest)) (used + len + 2)

abbrev pub push_item : Value → ℕ → Items → Items
push_item value consumed (collected values more) = collected (cons value values) (consumed + more)
push_item value consumed (stopped stop) = stopped stop

-- One round of the loop, with the rounds after it.
abbrev pub after_item : Parsed → (ℕ → Items) → Items
after_item (parsed value consumed) next = push_item value consumed (next consumed)
after_item (halted stop) next = stopped stop

unfoldable pub parse_items : (Bytes → Parsed) → ℕ → Bytes → Items
parse_items parse zero rest = collected nil 0
parse_items parse (suc count) rest =
    after_item (parse rest) (λ consumed. parse_items parse count (drop consumed rest))

abbrev pub close_array : ℕ → Items → Parsed
close_array used (collected values consumed) = parsed (array values) (used + consumed)
close_array used (stopped stop) = halted stop

-- `case "*"`: with a count that is `NaN` or below -1 the loop makes no round.
unfoldable pub parse_array : (Bytes → Parsed) → ℕ → Option ℤ → Bytes → Parsed
unfolding parse_items
parse_array parse used (some (negsuc zero)) rest = parsed null used
parse_array parse used (some (negsuc (suc _))) rest = parsed (array nil) used
parse_array parse used none rest = parsed (array nil) used
parse_array parse used (some (pos count)) rest = close_array used (parse_items parse count rest)

-- The `switch` on the type byte; `parse` is the call for an array's items.
unfoldable pub parse_typed : (Bytes → Parsed) → ℕ → Bytes → Bytes → Parsed
unfolding parse_bulk parse_array number
parse_typed parse type line rest =
    let used = length line + 3 in
    if type === b'+'
    then parsed (text line) used
    else if type === b'-'
    then parsed (reply_error line) used
    else if type === b':'
    then parsed (numeric (number line)) used
    else if type === b'$'
    then parse_bulk used (number line) rest
    else if type === b'*'
    then parse_array parse used (number line) rest
    else halted (unsupported type)

abbrev pub typed_line : (Bytes → Parsed) → ℕ → Option (Bytes × Bytes) → Parsed
typed_line parse type none = halted needs_more
typed_line parse type (some (line, rest)) = parse_typed parse type line rest

-- `tryParseReply` with fuel for its recursion.
unfoldable pub parse_reply : ℕ → Bytes → Parsed
unfolding parse_typed cut_line
parse_reply zero buf = halted needs_more
parse_reply (suc fuel) [] = halted needs_more
parse_reply (suc fuel) (type ∷ buf) = typed_line (parse_reply fuel) type (cut_line buf)

-- Each level of nesting has a type byte of its own, so the length of the buffer is enough.
unfoldable pub try_parse_reply : Bytes → Parsed
unfolding parse_reply
try_parse_reply buf = parse_reply (length buf) buf

-- The loop of `encodeCommand`.
unfoldable pub encode_arguments : List Bytes → Bytes
unfolding digits
encode_arguments [] = []
encode_arguments (a ∷ args) = b'$' ∷ (digits (length a) ++ crlf (a ++ crlf (encode_arguments args)))

unfoldable pub encode_command : List Bytes → Bytes
unfolding encode_arguments
encode_command args = b'*' ∷ (digits (length args) ++ crlf (encode_arguments args))
