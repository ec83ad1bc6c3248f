-- ===== src/Resp/Consumed.antt =====
-- How much of the buffer a parsed reply consumes, and that the fuel of the parser is enough.
use mathlib.Core.Path.{fun_ext}
use supply_chain_mangement_s.Common.{
  ℕ, zero, suc, ◌+◌, ◌-◌, ◌≤◌, ℤ, pos, negsuc, ltb, ◌≡◌, refl, ap, ◌∙◌, Option, none, some, [], ◌∷◌,
  length, drop, arith, Bool-cases, Option-cases, inl, inr,
}
use supply_chain_mangement_s.Bytes.{Bytes, number, cut_line}
use supply_chain_mangement_s.Bytes.Lines.{length-cut_line}
use supply_chain_mangement_s.Resp.{
  Value, Parsed, parsed, halted, Items, collected, stopped, push_item, after_item, close_array,
  parse_bulk, parse_items, parse_array, parse_typed, parse_reply, try_parse_reply,
}

pub length-drop : (n : ℕ) (xs : Bytes) → length (drop n xs) ≡ length xs - n
length-drop zero xs = omega arith
length-drop (suc n) [] = omega arith
length-drop (suc n) (x ∷ xs) = omega (arith, length-drop n xs)

-- A parsed reply consumes something, and at most what there is.
abbrev pub Consumes : ℕ → Parsed → Type 0
Consumes len (parsed _ consumed) = (1 ≤ consumed) × (consumed ≤ len)
Consumes len (halted _) = Unit

abbrev Collects : ℕ → Items → Type 0
Collects len (collected _ consumed) = consumed ≤ len
Collects len (stopped _) = Unit

push_item-Collects :
    (value : Value) (consumed len : ℕ) (items : Items)
    → consumed ≤ len
    → Collects (len - consumed) items
    → Collects len (push_item value consumed items)
push_item-Collects value consumed len (collected values more) h w = omega arith
push_item-Collects value consumed len (stopped stop) h w = tt

after_item-Collects :
    (len : ℕ) (item : Parsed) (next : ℕ → Items)
    → Consumes len item
    → ((consumed : ℕ) → Collects (len - consumed) (next consumed))
    → Collects len (after_item item next)
after_item-Collects len (parsed value consumed) next h rest =
    push_item-Collects value consumed len (next consumed) h.1 (rest consumed)
after_item-Collects len (halted stop) next h rest = tt

parse_bulk-Consumes :
    (used : ℕ) (len : Option ℤ) (rest : Bytes)
    → 1 ≤ used
    → Consumes (used + length rest) (parse_bulk used len rest)
unfolding parse_bulk
parse_bulk-Consumes used none rest u = tt
parse_bulk-Consumes used (some (negsuc zero)) rest u = omega arith
parse_bulk-Consumes used (some (negsuc (suc n))) rest u = tt
parse_bulk-Consumes used (some (pos len)) rest u = elim (Bool-cases (ltb (length rest) (len + 2))) [
  | inl e ↦ rw e tt
  | inr e ↦ rw e (ground arith)
]

close_array-Consumes :
    (used len : ℕ) (items : Items)
    → Collects len items
    → 1 ≤ used
    → Consumes (used + len) (close_array used items)
close_array-Consumes used len (collected values consumed) h u = omega arith
close_array-Consumes used len (stopped stop) h u = tt

module _ (parse : Bytes → Parsed)
    (consumes : (buf : Bytes) → Consumes (length buf) (parse buf)) where
  parse_items-Collects :
      (count : ℕ) (rest : Bytes) → Collects (length rest) (parse_items parse count rest)
  unfolding parse_items
  parse_items-Collects zero rest = omega arith
  parse_items-Collects (suc count) rest =
      after_item-Collects (length rest) (parse rest) _ (consumes rest) (λ consumed.
        rw (← length-drop consumed rest) (parse_items-Collects count (drop consumed rest)))

  parse_array-Consumes :
      (used : ℕ) (count : Option ℤ) (rest : Bytes)
      → 1 ≤ used
      → Consumes (used + length rest) (parse_array parse used count rest)
  unfolding parse_array
  parse_array-Consumes used none rest u = omega arith
  parse_array-Consumes used (some (negsuc zero)) rest u = omega arith
  parse_array-Consumes used (some (negsuc (suc n))) rest u = omega arith
  parse_array-Consumes used (some (pos count)) rest u =
      close_array-Consumes used (length rest) (parse_items parse count rest)
        (parse_items-Collects count rest) u

  parse_typed-Consumes :
      (type : ℕ) (line rest : Bytes)
      → Consumes (length line + 3 + length rest) (parse_typed parse type line rest)
  unfolding parse_typed
  parse_typed-Consumes type line rest = ground (
    arith,
    parse_bulk-Consumes (length line + 3) (number line) rest,
    parse_array-Consumes (length line + 3) (number line) rest,
  )

pub parse_reply-Consumes : (fuel : ℕ) (buf : Bytes) → Consumes (length buf) (parse_reply fuel buf)
unfolding parse_reply
parse_reply-Consumes zero buf = tt
parse_reply-Consumes (suc fuel) [] = tt
parse_reply-Consumes (suc fuel) (type ∷ buf) = elim (Option-cases (cut_line buf)) [
  | inl e ↦ rw e tt
  | inr ((line, rest), e) ↦
      let long : length (type ∷ buf) ≡ length line + 3 + length rest =
        omega (arith, length-cut_line buf line rest e) in
      rw (e, long)
        (parse_typed-Consumes (parse_reply fuel) (parse_reply-Consumes fuel) type line rest)
]

pub try_parse_reply-Consumes : (buf : Bytes) → Consumes (length buf) (try_parse_reply buf)
unfolding try_parse_reply
try_parse_reply-Consumes buf = parse_reply-Consumes (length buf) buf

-- Two parsers that agree up to a length give the same items of a buffer of that length.
module _ (first second : Bytes → Parsed) (bound : ℕ)
    (agree : (buf : Bytes) → length buf ≤ bound → first buf ≡ second buf) where
  parse_items-agree :
      (count : ℕ) (rest : Bytes)
      → length rest ≤ bound
      → parse_items first count rest ≡ parse_items second count rest
  unfolding parse_items
  parse_items-agree zero rest h = refl
  parse_items-agree (suc count) rest h =
      ap (λ o. after_item o (λ consumed. parse_items first count (drop consumed rest)))
        (agree rest h)
      ∙ ap (after_item (second rest)) (
          fun_ext (λ consumed.
            parse_items-agree count (drop consumed rest)
              (omega (arith, length-drop consumed rest))))

  parse_array-agree :
      (used : ℕ) (count : Option ℤ) (rest : Bytes)
      → length rest ≤ bound
      → parse_array first used count rest ≡ parse_array second used count rest
  unfolding parse_array
  parse_array-agree used none rest h = refl
  parse_array-agree used (some (negsuc zero)) rest h = refl
  parse_array-agree used (some (negsuc (suc n))) rest h = refl
  parse_array-agree used (some (pos count)) rest h =
      ap (close_array used) (parse_items-agree count rest h)

  parse_typed-agree :
      (type : ℕ) (line rest : Bytes)
      → length rest ≤ bound
      → parse_typed first type line rest ≡ parse_typed second type line rest
  unfolding parse_typed
  parse_typed-agree type line rest h =
      ground (arith, parse_array-agree (length line + 3) (number line) rest)

parse_reply-fuel :
    (fuel enough : ℕ) (buf : Bytes)
    → length buf ≤ fuel
    → length buf ≤ enough
    → parse_reply fuel buf ≡ parse_reply enough buf
unfolding parse_reply
parse_reply-fuel zero zero buf h k = refl
parse_reply-fuel zero (suc enough) [] h k = refl
parse_reply-fuel zero (suc enough) (type ∷ buf) h k = absurd (omega arith)
parse_reply-fuel (suc fuel) zero [] h k = refl
parse_reply-fuel (suc fuel) zero (type ∷ buf) h k = absurd (omega arith)
parse_reply-fuel (suc fuel) (suc enough) [] h k = refl
parse_reply-fuel (suc fuel) (suc enough) (type ∷ buf) h k = elim (Option-cases (cut_line buf)) [
  | inl e ↦ rw e refl
  | inr ((line, rest), e) ↦ rw e (
      parse_typed-agree (parse_reply fuel) (parse_reply enough) (length rest)
        (λ b small.
          parse_reply-fuel fuel enough b (omega (arith, length-cut_line buf line rest e))
            (omega (arith, length-cut_line buf line rest e)))
        type line rest (omega arith))
]

-- Any fuel of at least the buffer's length gives what `tryParseReply` gives.
pub parse_reply-enough :
    (fuel : ℕ) (buf : Bytes) → length buf ≤ fuel → parse_reply fuel buf ≡ try_parse_reply buf
unfolding try_parse_reply
parse_reply-enough fuel buf h = parse_reply-fuel fuel (length buf) buf h (omega arith)
