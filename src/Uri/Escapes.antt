-- ===== src/Uri/Escapes.antt =====
-- One code point, written as `%XX` escapes and read back.
use supply_chain_mangement_s.Common.{
  ℕ, suc, ◌+◌, ◌*◌, ◌/◌, ◌%◌, ltb, ◌≡◌, refl, ap, true, false, some, [], ◌∷◌, ◌++◌, arith,
  Bool-cases, inl, inr, ◌&&◌,
}
use supply_chain_mangement_s.Bytes.{Bytes}
use supply_chain_mangement_s.Uri.{
  hex_digit, hex_value, escaped, utf8, is_scalar, read_byte, read_continuation, checked, point_from,
  read_point,
}

hex_value-hex_digit : (n : ℕ) → ltb n 16 ≡ true → hex_value (hex_digit n) ≡ some n
unfolding hex_value hex_digit
hex_value-hex_digit n h = ground (arith, h)

pub read_byte-escaped :
    (b : ℕ) (bytes rest : Bytes)
    → ltb b 256 ≡ true
    → read_byte (escaped (b ∷ bytes) ++ rest) ≡ some (b, escaped bytes ++ rest)
unfolding read_byte escaped
read_byte-escaped b bytes rest h =
    rw
      (
        hex_value-hex_digit (b / 16) (ground (arith, h)),
        hex_value-hex_digit (b % 16) (ground (arith, h)),
      )
      (ap (λ n. some (n, escaped bytes ++ rest)) (omega arith))

-- A continuation byte with the bits `bits`.
read_continuation-escaped :
    (n acc bits : ℕ) (bytes rest : Bytes)
    → ltb bits 64 ≡ true
    → read_continuation (suc n) acc (escaped ((128 + bits) ∷ bytes) ++ rest)
      ≡ read_continuation n (acc * 64 + bits) (escaped bytes ++ rest)
unfolding read_continuation
read_continuation-escaped n acc bits bytes rest h =
    let in_range : (ltb 127 (128 + bits) && ltb (128 + bits) 192) ≡ true = ground (arith, h) in
    rw (read_continuation, read_byte-escaped (128 + bits) bytes rest (ground (arith, h)), in_range)
      (ap (λ bits. read_continuation n (acc * 64 + bits) (escaped bytes ++ rest)) (omega arith))

read_point-escaped :
    (b : ℕ) (bytes rest : Bytes)
    → ltb b 256 ≡ true
    → read_point (escaped (b ∷ bytes) ++ rest) ≡ point_from b (escaped bytes ++ rest)
unfolding read_point
read_point-escaped b bytes rest h = rw (read_point, read_byte-escaped b bytes rest h) refl

point_from-two :
    (high : ℕ) (rest : Bytes)
    → ltb high 32 ≡ true
    → point_from (192 + high) rest ≡ checked 128 (read_continuation 1 high rest)
unfolding point_from
point_from-two high rest h = ground (arith, h)

point_from-three :
    (high : ℕ) (rest : Bytes)
    → ltb high 16 ≡ true
    → point_from (224 + high) rest ≡ checked 2048 (read_continuation 2 high rest)
unfolding point_from
point_from-three high rest h =
    let t0 : ltb (224 + high) 128 ≡ false = ground (arith, h) in
    let t1 : ltb (224 + high) 192 ≡ false = ground (arith, h) in
    let t2 : ltb (224 + high) 224 ≡ false = ground (arith, h) in
    let t3 : ltb (224 + high) 240 ≡ true = ground (arith, h) in
    rw (point_from, t0, t1, t2, t3)
      (ap (λ n. checked 2048 (read_continuation 2 n rest)) (omega arith))

point_from-four :
    (high : ℕ) (rest : Bytes)
    → ltb high 8 ≡ true
    → point_from (240 + high) rest ≡ checked 65536 (read_continuation 3 high rest)
unfolding point_from
point_from-four high rest h =
    let t0 : ltb (240 + high) 128 ≡ false = ground (arith, h) in
    let t1 : ltb (240 + high) 192 ≡ false = ground (arith, h) in
    let t2 : ltb (240 + high) 224 ≡ false = ground (arith, h) in
    let t3 : ltb (240 + high) 240 ≡ false = ground (arith, h) in
    let t4 : ltb (240 + high) 248 ≡ true = ground (arith, h) in
    rw (point_from, t0, t1, t2, t3, t4)
      (ap (λ n. checked 65536 (read_continuation 3 n rest)) (omega arith))

checked-some :
    (least c : ℕ) (rest : Bytes)
    → ltb c least ≡ false
    → is_scalar c ≡ true
    → checked least (some (c, rest)) ≡ some (c, rest)
checked-some least c rest h scalar = ground (arith, h, scalar)

read_two :
    (c : ℕ) (rest : Bytes)
    → ltb c 128 ≡ false
    → ltb c 2048 ≡ true
    → is_scalar c ≡ true
    → read_point (escaped (utf8 c) ++ rest) ≡ some (c, rest)
unfolding utf8 read_continuation escaped
read_two c rest many two h =
    let low = (128 + c % 64) ∷ [] in
    let whole : c / 64 * 64 + c % 64 ≡ c = omega arith in
    rw
      (
        many,
        two,
        read_point-escaped (192 + c / 64) low rest (ground (arith, two)),
        point_from-two (c / 64) (escaped low ++ rest) (ground (arith, two)),
        read_continuation-escaped 0 (c / 64) (c % 64) [] rest (ground arith),
        whole,
      )
      (checked-some 128 c rest many h)

read_three :
    (c : ℕ) (rest : Bytes)
    → ltb c 2048 ≡ false
    → ltb c 65536 ≡ true
    → is_scalar c ≡ true
    → read_point (escaped (utf8 c) ++ rest) ≡ some (c, rest)
unfolding utf8 read_continuation escaped
read_three c rest more three h =
    let many : ltb c 128 ≡ false = ground (arith, more) in
    let low = (128 + c % 64) ∷ [] in
    let middle = (128 + c / 64 % 64) ∷ low in
    let whole : (c / 4096 * 64 + c / 64 % 64) * 64 + c % 64 ≡ c = omega arith in
    rw
      (
        many,
        more,
        three,
        read_point-escaped (224 + c / 4096) middle rest (ground (arith, three)),
        point_from-three (c / 4096) (escaped middle ++ rest) (ground (arith, three)),
        read_continuation-escaped 1 (c / 4096) (c / 64 % 64) low rest (ground arith),
        read_continuation-escaped 0 (c / 4096 * 64 + c / 64 % 64) (c % 64) [] rest (ground arith),
        whole,
      )
      (checked-some 2048 c rest more h)

read_four :
    (c : ℕ) (rest : Bytes)
    → ltb c 65536 ≡ false
    → is_scalar c ≡ true
    → read_point (escaped (utf8 c) ++ rest) ≡ some (c, rest)
unfolding utf8 read_continuation escaped
read_four c rest most h =
    let many : ltb c 128 ≡ false = ground (arith, most) in
    let more : ltb c 2048 ≡ false = ground (arith, most) in
    let top : ltb c 1114112 ≡ true = unfold is_scalar in ground (arith, most, h) in
    let low = (128 + c % 64) ∷ [] in
    let middle = (128 + c / 64 % 64) ∷ low in
    let upper = (128 + c / 4096 % 64) ∷ middle in
    let front = c / 262144 * 64 + c / 4096 % 64 in
    let whole : ((c / 262144 * 64 + c / 4096 % 64) * 64 + c / 64 % 64) * 64 + c % 64 ≡ c =
      omega arith in
    rw
      (
        many,
        more,
        most,
        read_point-escaped (240 + c / 262144) upper rest (ground (arith, top)),
        point_from-four (c / 262144) (escaped upper ++ rest) (ground (arith, top)),
        read_continuation-escaped 2 (c / 262144) (c / 4096 % 64) middle rest (ground arith),
        read_continuation-escaped 1 front (c / 64 % 64) low rest (ground arith),
        read_continuation-escaped 0 (front * 64 + c / 64 % 64) (c % 64) [] rest (ground arith),
        whole,
      )
      (checked-some 65536 c rest most h)

-- The escapes of a scalar's UTF-8 bytes read back as the scalar, whatever follows them.
pub read_point-utf8 :
    (c : ℕ) (rest : Bytes)
    → is_scalar c ≡ true
    → read_point (escaped (utf8 c) ++ rest) ≡ some (c, rest)
unfolding utf8 read_continuation escaped
read_point-utf8 c rest h = elim (Bool-cases (ltb c 128)) [
  | inl one ↦
      rw (one, read_point-escaped c [] rest (ground (arith, one)))
        (unfold point_from in rw (point_from, one) refl)
  | inr many ↦ elim (Bool-cases (ltb c 2048)) [
    | inl two ↦ read_two c rest many two h
    | inr more ↦ elim (Bool-cases (ltb c 65536)) [
      | inl three ↦ read_three c rest more three h
      | inr most ↦ read_four c rest most h
    ]
  ]
]
