-- ===== src/Bytes/Lines.antt =====
-- The first line of a buffer: what a printed line gives, and that bytes behind it change nothing.
use supply_chain_mangement_s.Common.{
  ℕ, ◌+◌, ◌≡◌, refl, ap, Option, none, some, [], ◌∷◌, ◌++◌, length, ◌&&◌, arith, Bool-cases, inl,
  inr,
}
use supply_chain_mangement_s.Bytes.{
  Bytes, ◌===◌, carriage_return, line_feed, crlf, in_front, cut_line,
}
use supply_chain_mangement_s.Bytes.Numerals.{IsLine}

pub cut_line-crlf :
    (line rest : Bytes) → IsLine line → cut_line (line ++ crlf rest) ≡ some (line, rest)
unfolding cut_line
cut_line-crlf [] rest h = refl
cut_line-crlf (c ∷ []) rest h = ground arith
cut_line-crlf (c ∷ d ∷ line) rest h = ground (arith, cut_line-crlf (d ∷ line) rest h.1)

in_front-some :
    (c : ℕ) (o : Option (Bytes × Bytes)) (line rest : Bytes)
    → in_front c o ≡ some (line, rest)
    → (front : Bytes) × (o ≡ some (front, rest)) × (line ≡ c ∷ front)
in_front-some c none line rest h = absurd (ground (arith, h))
in_front-some c (some (front, rest')) line rest h = (front, ground (arith, h), ground (arith, h))

-- A complete line stays the first line whatever arrives behind it.
pub cut_line-append :
    (buf more line rest : Bytes)
    → cut_line buf ≡ some (line, rest)
    → cut_line (buf ++ more) ≡ some (line, rest ++ more)
unfolding cut_line
cut_line-append [] more line rest h = absurd (ground (arith, h))
cut_line-append (c ∷ []) more line rest h = absurd (ground (arith, h))
cut_line-append (c ∷ d ∷ buf) more line rest h =
    elim (Bool-cases (c === carriage_return && d === line_feed)) [
      | inl e ↦ ground (arith, e, h)
      | inr e ↦
          let (front, e', l) = in_front-some c (cut_line (d ∷ buf)) line rest (rw e at h) in
          rw (e, cut_line-append (d ∷ buf) more front rest e') (ground (arith, l))
    ]

-- The line, its end and the rest are as long as the buffer.
pub length-cut_line :
    (buf line rest : Bytes)
    → cut_line buf ≡ some (line, rest)
    → length buf ≡ length line + 2 + length rest
unfolding cut_line
length-cut_line [] line rest h = absurd (ground (arith, h))
length-cut_line (c ∷ []) line rest h = absurd (ground (arith, h))
length-cut_line (c ∷ d ∷ buf) line rest h =
    elim (Bool-cases (c === carriage_return && d === line_feed)) [
      | inl e ↦ ground (arith, e, h)
      | inr e ↦
          let (front, e', l) = in_front-some c (cut_line (d ∷ buf)) line rest (rw e at h) in
          omega (arith, length-cut_line (d ∷ buf) front rest e', ap length l)
    ]
