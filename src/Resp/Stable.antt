-- ===== src/Resp/Stable.antt =====
-- Bytes that arrive behind a complete reply do not change what is parsed.
use supply_chain_mangement_s.Common.{
  ℕ, zero, suc, ◌+◌, ◌≤◌, ℤ, pos, negsuc, ltb, ◌≡◌, ◌⊎◌, refl, ap, Option, none, some, [], ◌∷◌,
  ◌++◌, length, length-append, drop, arith, Bool-cases, Option-cases, inl, inr,
}
use supply_chain_mangement_s.Bytes.{Bytes, number, cut_line}
use supply_chain_mangement_s.Bytes.Lines.{cut_line-append}
use supply_chain_mangement_s.Resp.Consumed.{Consumes, parse_reply-Consumes, parse_reply-enough}
use supply_chain_mangement_s.Resp.{
  Value, needs_more, Parsed, parsed, halted, Items, stopped, push_item, after_item, close_array,
  take, parse_bulk, parse_items, parse_array, parse_typed, parse_reply, try_parse_reply,
}

pub drop-append : (n : ℕ) (xs ys : Bytes) → n ≤ length xs → drop n (xs ++ ys) ≡ drop n xs ++ ys
drop-append zero xs ys h = refl
drop-append (suc n) [] ys h = absurd (omega arith)
drop-append (suc n) (x ∷ xs) ys h = drop-append n xs ys (omega arith)

take-append : (n : ℕ) (xs ys : Bytes) → n ≤ length xs → take n (xs ++ ys) ≡ take n xs
take-append zero xs ys h = refl
take-append (suc n) [] ys h = absurd (omega arith)
take-append (suc n) (x ∷ xs) ys h = ap (◌∷◌ x) (take-append n xs ys (omega arith))

-- An outcome is kept, unless it was that more bytes are needed.
abbrev pub Kept : Parsed → Parsed → Type 0
Kept before after = (before ≡ halted needs_more) ⊎ (after ≡ before)

abbrev KeptItems : Items → Items → Type 0
KeptItems before after = (before ≡ stopped needs_more) ⊎ (after ≡ before)

push_item-KeptItems :
    (value : Value) (consumed : ℕ) (before after : Items)
    → KeptItems before after
    → KeptItems (push_item value consumed before) (push_item value consumed after)
push_item-KeptItems value consumed before after (inl e) = inl (ap (push_item value consumed) e)
push_item-KeptItems value consumed before after (inr e) = inr (ap (push_item value consumed) e)

close_array-Kept :
    (used : ℕ) (before after : Items)
    → KeptItems before after
    → Kept (close_array used before) (close_array used after)
close_array-Kept used before after (inl e) = inl (ap (close_array used) e)
close_array-Kept used before after (inr e) = inr (ap (close_array used) e)

after_item-Kept :
    (len : ℕ) (item item' : Parsed) (next next' : ℕ → Items)
    → Kept item item'
    → Consumes len item
    → ((consumed : ℕ) → consumed ≤ len → KeptItems (next consumed) (next' consumed))
    → KeptItems (after_item item next) (after_item item' next')
after_item-Kept len item item' next next' (inl e) c rest = inl (ap (λ o. after_item o next) e)
after_item-Kept len (parsed value consumed) item' next next' (inr e) c rest =
    rw e (push_item-KeptItems value consumed (next consumed) (next' consumed) (rest consumed c.1))
after_item-Kept len (halted stop) item' next next' (inr e) c rest =
    inr (ap (λ o. after_item o next') e)

module _ (early late : Bytes → Parsed) (more : Bytes)
    (consumes : (buf : Bytes) → Consumes (length buf) (early buf))
    (kept : (buf : Bytes) → Kept (early buf) (late (buf ++ more))) where
  parse_items-KeptItems :
      (count : ℕ) (rest : Bytes)
      → KeptItems (parse_items early count rest) (parse_items late count (rest ++ more))
  unfolding parse_items
  parse_items-KeptItems zero rest = inr refl
  parse_items-KeptItems (suc count) rest =
      after_item-Kept (length rest) (early rest) (late (rest ++ more)) _ _ (kept rest)
        (consumes rest)
        (λ consumed h.
          rw (drop-append consumed rest more h) (parse_items-KeptItems count (drop consumed rest)))

  parse_array-Kept :
      (used : ℕ) (count : Option ℤ) (rest : Bytes)
      → Kept (parse_array early used count rest) (parse_array late used count (rest ++ more))
  unfolding parse_array
  parse_array-Kept used none rest = inr refl
  parse_array-Kept used (some (negsuc zero)) rest = inr refl
  parse_array-Kept used (some (negsuc (suc n))) rest = inr refl
  parse_array-Kept used (some (pos count)) rest =
      close_array-Kept used _ _ (parse_items-KeptItems count rest)

  parse_bulk-Kept :
      (used : ℕ) (len : Option ℤ) (rest : Bytes)
      → Kept (parse_bulk used len rest) (parse_bulk used len (rest ++ more))
  unfolding parse_bulk
  parse_bulk-Kept used none rest = inr refl
  parse_bulk-Kept used (some (negsuc zero)) rest = inr refl
  parse_bulk-Kept used (some (negsuc (suc n))) rest = inr refl
  parse_bulk-Kept used (some (pos len)) rest = elim (Bool-cases (ltb (length rest) (len + 2))) [
    | inl e ↦ inl (rw e refl)
    | inr e ↦ inr (ground (arith, e, length-append rest more, take-append len rest more))
  ]

  parse_typed-Kept :
      (type : ℕ) (line rest : Bytes)
      → Kept (parse_typed early type line rest) (parse_typed late type line (rest ++ more))
  unfolding parse_typed
  parse_typed-Kept type line rest = ground (
    arith,
    parse_bulk-Kept (length line + 3) (number line) rest,
    parse_array-Kept (length line + 3) (number line) rest,
  )

parse_reply-Kept :
    (fuel : ℕ) (buf more : Bytes) → Kept (parse_reply fuel buf) (parse_reply fuel (buf ++ more))
unfolding parse_reply
parse_reply-Kept zero buf more = inl refl
parse_reply-Kept (suc fuel) [] more = inl refl
parse_reply-Kept (suc fuel) (type ∷ buf) more = elim (Option-cases (cut_line buf)) [
  | inl e ↦ inl (rw e refl)
  | inr ((line, rest), e) ↦
      rw (e, cut_line-append buf more line rest e)
        (parse_typed-Kept (parse_reply fuel) (parse_reply fuel) more (parse_reply-Consumes fuel)
          (λ b. parse_reply-Kept fuel b more) type line rest)
]

-- A reply that is complete in the buffer is parsed the same whatever follows it, and so are the
-- outcomes that throw.
pub try_parse_reply-Kept :
    (buf more : Bytes) → Kept (try_parse_reply buf) (try_parse_reply (buf ++ more))
try_parse_reply-Kept buf more =
    rw
      (
        ← parse_reply-enough (length (buf ++ more)) buf (omega (arith, length-append buf more)),
        ← parse_reply-enough (length (buf ++ more)) (buf ++ more) (omega arith),
      )
      (parse_reply-Kept (length (buf ++ more)) buf more)
