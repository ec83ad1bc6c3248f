-- ===== src/Resp/RoundTrip.antt =====
-- `tryParseReply` reads back what a server prints, and a command that `encodeCommand` writes.
use supply_chain_mangement_s.Common.{
  ℕ, zero, suc, ◌+◌, ◌≤◌, ℤ, pos, ◌≡◌, ◌∙◌, refl, ap, some, List, [], ◌∷◌, ◌++◌, append_assoc,
  length, length-append, drop, arith,
}
use supply_chain_mangement_s.Bytes.{Bytes, crlf, digits, signed, number}
use supply_chain_mangement_s.Bytes.Numerals.{IsLine, number-signed, signed-IsLine}
use supply_chain_mangement_s.Bytes.Lines.{cut_line-crlf}
use supply_chain_mangement_s.Resp.{
  Value, text, reply_error, numeric, null, array, Values, nil, cons, Parsed, parsed, collected,
  take, after_item, push_item, close_array, parse_bulk, parse_items, parse_array, parse_typed,
  parse_reply, try_parse_reply, encode_arguments, encode_command,
}
use supply_chain_mangement_s.Resp.Wire.{
  Reply, simple, error, integer, bulk, null_bulk, null_array, many, Replies, end, item, count,
  print, print_items, value_of, values_of, IsReply, AreReplies,
}

pub drop-length : (xs ys : Bytes) → drop (length xs) (xs ++ ys) ≡ ys
drop-length [] ys = refl
drop-length (x ∷ xs) ys = drop-length xs ys

take-length : (xs ys : Bytes) → take (length xs) (xs ++ ys) ≡ xs
take-length [] ys = refl
take-length (x ∷ xs) ys = ap (◌∷◌ x) (take-length xs ys)

-- The line behind the type byte is read, and the rest handed to the case of the type.
parse_reply-line :
    (fuel type : ℕ) (line body rest : Bytes)
    → IsLine line
    → parse_reply (suc fuel) ((type ∷ (line ++ crlf body)) ++ rest)
      ≡ parse_typed (parse_reply fuel) type line (body ++ rest)
unfolding parse_reply
parse_reply-line fuel type line body rest h =
    rw (append_assoc line (crlf body) rest, cut_line-crlf line (body ++ rest) h) refl

number-digits : (n : ℕ) → number (digits n) ≡ some (pos n)
number-digits n = unfold signed in number-signed (pos n)

digits-IsLine : (n : ℕ) → IsLine (digits n)
digits-IsLine n = unfold signed in signed-IsLine (pos n)

parse_bulk-whole :
    (used : ℕ) (bytes rest : Bytes)
    → parse_bulk used (some (pos (length bytes))) ((bytes ++ crlf []) ++ rest)
      ≡ parsed (text bytes) (used + length bytes + 2)
unfolding parse_bulk
parse_bulk-whole used bytes rest = ground (
  arith,
  append_assoc bytes (crlf []) rest,
  take-length bytes (crlf rest),
  length-append bytes (crlf rest),
)

typed-digits :
    (parse : Bytes → Parsed) (bytes rest : Bytes)
    → parse_typed parse b'$' (digits (length bytes)) ((bytes ++ crlf []) ++ rest)
      ≡ parsed (text bytes) (length (digits (length bytes)) + 3 + length bytes + 2)
unfolding parse_typed
typed-digits parse bytes rest =
    ap (λ n. parse_bulk (length (digits (length bytes)) + 3) n ((bytes ++ crlf []) ++ rest))
      (number-digits (length bytes))
    ∙ parse_bulk-whole (length (digits (length bytes)) + 3) bytes rest

typed-many :
    (parse : Bytes → Parsed) (n : ℕ) (rest : Bytes)
    → parse_typed parse b'*' (digits n) rest
      ≡ close_array (length (digits n) + 3) (parse_items parse n rest)
unfolding parse_typed parse_array
typed-many parse n rest =
    ap (λ k. parse_array parse (length (digits n) + 3) k rest) (number-digits n)

typed-integer :
    (parse : Bytes → Parsed) (n : ℤ) (rest : Bytes)
    → parse_typed parse b':' (signed n) rest ≡ parsed (numeric (some n)) (length (signed n) + 3)
unfolding parse_typed
typed-integer parse n rest = ap (λ k. parsed (numeric k) (length (signed n) + 3)) (number-signed n)

typed-simple :
    (parse : Bytes → Parsed) (line rest : Bytes)
    → parse_typed parse b'+' line rest ≡ parsed (text line) (length line + 3)
unfolding parse_typed
typed-simple parse line rest = refl

typed-error :
    (parse : Bytes → Parsed) (line rest : Bytes)
    → parse_typed parse b'-' line rest ≡ parsed (reply_error line) (length line + 3)
unfolding parse_typed
typed-error parse line rest = refl

parse_reply-null :
    (fuel : ℕ) (rest : Bytes)
    → (parse_reply (suc fuel) (print null_bulk ++ rest) ≡ parsed null 5)
      × (parse_reply (suc fuel) (print null_array ++ rest) ≡ parsed null 5)
unfolding parse_reply print
parse_reply-null fuel rest = (refl, refl)

parse_items-step :
    (parse : Bytes → Parsed) (value : Value) (n : ℕ) (first later : Bytes)
    → parse (first ++ later) ≡ parsed value (length first)
    → parse_items parse (suc n) (first ++ later)
      ≡ push_item value (length first) (parse_items parse n later)
unfolding parse_items
parse_items-step parse value n first later h =
    ap (λ o. after_item o (λ consumed. parse_items parse n (drop consumed (first ++ later)))) h
    ∙ ap (λ b. push_item value (length first) (parse_items parse n b)) (drop-length first later)

parse_items-none :
    (parse : Bytes → Parsed) (rest : Bytes) → parse_items parse 0 rest ≡ collected nil 0
unfolding parse_items
parse_items-none parse rest = refl

length-line : (line body : Bytes) → length (line ++ crlf body) ≡ length line + 2 + length body
length-line line body = omega (arith, length-append line (crlf body))

-- One reply with any bytes behind it, with any fuel of at least its length.
mutual
  unfolding print value_of IsReply

  parse_reply-print :
      (r : Reply) (fuel : ℕ) (rest : Bytes)
      → IsReply r
      → length (print r) ≤ fuel
      → parse_reply fuel (print r ++ rest) ≡ parsed (value_of r) (length (print r))
  parse_reply-print (simple line) zero rest h f = absurd (omega arith)
  parse_reply-print (simple line) (suc fuel) rest h f =
      parse_reply-line fuel b'+' line [] rest h
      ∙ typed-simple (parse_reply fuel) line rest
      ∙ ap (parsed (text line)) (omega (arith, length-line line []))
  parse_reply-print (error line) zero rest h f = absurd (omega arith)
  parse_reply-print (error line) (suc fuel) rest h f =
      parse_reply-line fuel b'-' line [] rest h
      ∙ typed-error (parse_reply fuel) line rest
      ∙ ap (parsed (reply_error line)) (omega (arith, length-line line []))
  parse_reply-print (integer n) zero rest h f = absurd (omega arith)
  parse_reply-print (integer n) (suc fuel) rest h f =
      parse_reply-line fuel b':' (signed n) [] rest (signed-IsLine n)
      ∙ typed-integer (parse_reply fuel) n rest
      ∙ ap (parsed (numeric (some n))) (omega (arith, length-line (signed n) []))
  parse_reply-print (bulk bytes) zero rest h f = absurd (omega arith)
  parse_reply-print (bulk bytes) (suc fuel) rest h f =
      parse_reply-line fuel b'$' (digits (length bytes)) (bytes ++ crlf []) rest
        (digits-IsLine (length bytes))
      ∙ typed-digits (parse_reply fuel) bytes rest
      ∙ ap (parsed (text bytes)) (
          omega
            (arith, length-line (digits (length bytes)) (bytes ++ crlf []), length-line bytes []))
  parse_reply-print null_bulk zero rest h f = absurd (omega arith)
  parse_reply-print null_bulk (suc fuel) rest h f = (parse_reply-null fuel rest).0
  parse_reply-print null_array zero rest h f = absurd (omega arith)
  parse_reply-print null_array (suc fuel) rest h f = (parse_reply-null fuel rest).1
  parse_reply-print (many rs) zero rest h f = absurd (omega arith)
  parse_reply-print (many rs) (suc fuel) rest h f =
      parse_reply-line fuel b'*' (digits (count rs)) (print_items rs) rest
        (digits-IsLine (count rs))
      ∙ typed-many (parse_reply fuel) (count rs) (print_items rs ++ rest)
      ∙ ap (close_array (length (digits (count rs)) + 3)) (
          parse_items-print rs fuel rest h
            (omega (arith, length-line (digits (count rs)) (print_items rs))))
      ∙ ap (parsed (array (values_of rs)))
          (omega (arith, length-line (digits (count rs)) (print_items rs)))

  parse_items-print :
      (rs : Replies) (fuel : ℕ) (rest : Bytes)
      → AreReplies rs
      → length (print_items rs) ≤ fuel
      → parse_items (parse_reply fuel) (count rs) (print_items rs ++ rest)
        ≡ collected (values_of rs) (length (print_items rs))
  parse_items-print end fuel rest h f = parse_items-none (parse_reply fuel) rest
  parse_items-print (item r rs) fuel rest h f =
      let long = length-append (print r) (print_items rs) in
      let first = parse_reply-print r fuel (print_items rs ++ rest) h.0 (omega arith) in
      let later = parse_items-print rs fuel rest h.1 (omega arith) in
      ap (parse_items (parse_reply fuel) (suc (count rs)))
        (append_assoc (print r) (print_items rs) rest)
      ∙ parse_items-step (parse_reply fuel) (value_of r) (count rs) (print r)
          (print_items rs ++ rest) first
      ∙ ap (push_item (value_of r) (length (print r))) later
      ∙ ap (collected (cons (value_of r) (values_of rs))) (omega arith)

-- A printed reply is parsed to its value, and exactly its bytes are consumed.
pub try_parse_reply-print :
    (r : Reply) (rest : Bytes)
    → IsReply r
    → try_parse_reply (print r ++ rest) ≡ parsed (value_of r) (length (print r))
unfolding try_parse_reply
try_parse_reply-print r rest h =
    parse_reply-print r (length (print r ++ rest)) rest h
      (omega (arith, length-append (print r) rest))

abbrev bulks : List Bytes → Replies
bulks [] = end
bulks (a ∷ args) = item (bulk a) (bulks args)

-- The value of an array of texts.
abbrev pub texts : List Bytes → Values
texts [] = nil
texts (a ∷ args) = cons (text a) (texts args)

count-bulks : (args : List Bytes) → count (bulks args) ≡ length args
count-bulks [] = refl
count-bulks (a ∷ args) = ap suc (count-bulks args)

values_of-bulks : (args : List Bytes) → values_of (bulks args) ≡ texts args
unfolding values_of
values_of-bulks [] = refl
values_of-bulks (a ∷ args) = ap (cons (text a)) (values_of-bulks args)

AreReplies-bulks : (args : List Bytes) → AreReplies (bulks args)
unfolding AreReplies
AreReplies-bulks [] = tt
AreReplies-bulks (a ∷ args) = (tt, AreReplies-bulks args)

print_items-bulks : (args : List Bytes) → print_items (bulks args) ≡ encode_arguments args
unfolding print encode_arguments
print_items-bulks [] = refl
print_items-bulks (a ∷ args) = simp (append_assoc, print_items-bulks args)

print-bulks : (args : List Bytes) → print (many (bulks args)) ≡ encode_command args
unfolding print encode_command
print-bulks args =
    ap (λ n. b'*' ∷ (digits n ++ crlf (print_items (bulks args)))) (count-bulks args)
    ∙ ap (λ b. b'*' ∷ (digits (length args) ++ crlf b)) (print_items-bulks args)

-- What `encodeCommand` writes for some arguments, with any bytes behind it, is one array of bulk
-- strings, which are the arguments, byte for byte, and nothing behind it is consumed.
pub parse-encode_command :
    (args : List Bytes) (rest : Bytes)
    → try_parse_reply (encode_command args ++ rest)
      ≡ parsed (array (texts args)) (length (encode_command args))
parse-encode_command args rest =
    rw (← print-bulks args, ← values_of-bulks args)
      (unfold value_of in
        try_parse_reply-print (many (bulks args)) rest (unfold IsReply in AreReplies-bulks args))
