-- ===== src/Trips/Polyline/RoundTrip.antt =====
-- src/trips/polyline.py: the decoder inverts the encoding that Google documents.
use native.Mathlib.Nat.{pow-zero, pow-suc, mul_assoc, add-mul}
use agentic_guide_system.Prelude.{
  ℕ, zero, suc, ◌+◌, ◌*◌, ◌/◌, ◌%◌, ◌^◌, ◌≤◌, ◌<◌, ◌≡◌, refl, ap, ◌∙◌, sym, inl, inr, some, true,
  false, List, [], ◌∷◌, ◌++◌, ltb, length, length-append, arith, Bool-cases, if◌then◌else◌,
}
use agentic_guide_system.Prelude.Int.{ℤ, pos, negsuc}
use agentic_guide_system.Trips.Polyline.{
  ◌+ℤ◌, read_number, unzigzag, prepend, read_points, or_empty, decode_polyline,
}

-- Five bits at a time, the lowest first, with 32 added to all but the last.
abbrev encode_number : ℕ → ℕ → List ℕ
encode_number zero n = (n + 63) ∷ []
encode_number (suc fuel) n =
    let rest = encode_number fuel (n / 32) in
    if ltb n 32 then (n + 63) ∷ [] else (n % 32 + 95) ∷ rest

-- The sign goes to the lowest bit.
abbrev zigzag : ℤ → ℕ
zigzag (pos n) = 2 * n
zigzag (negsuc n) = 2 * n + 1

abbrev encode_signed : ℤ → List ℕ
encode_signed z = encode_number (zigzag z) (zigzag z)

abbrev neg : ℤ → ℤ
neg (pos zero) = pos zero
neg (pos (suc n)) = negsuc n
neg (negsuc n) = pos (suc n)

-- Each point as its difference from the point before.
unfoldable pub encode_from : ℤ × ℤ → List (ℤ × ℤ) → List ℕ
encode_from from [] = []
encode_from from (point ∷ points) =
    encode_signed (point.0 +ℤ neg from.0)
    ++ (encode_signed (point.1 +ℤ neg from.1) ++ encode_from point points)

unfoldable pub encode_polyline : List (ℤ × ℤ) → List ℕ
unfolding encode_from
encode_polyline points = encode_from (pos 0, pos 0) points

unzigzag-zigzag : (z : ℤ) → unzigzag (zigzag z) ≡ z
unfolding unzigzag
unzigzag-zigzag (pos n) = ground arith
unzigzag-zigzag (negsuc n) = ground arith

add_back : (a b : ℤ) → (a +ℤ (b +ℤ neg a)) ≡ b
add_back (pos zero) (pos n) = ground arith
add_back (pos zero) (negsuc n) = ground arith
add_back (pos (suc m)) (pos n) = ground arith
add_back (pos (suc m)) (negsuc n) = ground arith
add_back (negsuc m) (pos n) = ground arith
add_back (negsuc m) (negsuc n) = ground arith

pow_five : (k : ℕ) → 2 ^ (k + 5) ≡ 32 * 2 ^ k
pow_five k =
    let five : k + 5 ≡ suc (suc (suc (suc (suc k)))) = omega arith in
    ap (λ i. 2 ^ i) five
    ∙ omega (
      arith,
      pow-suc 2 k,
      pow-suc 2 (suc k),
      pow-suc 2 (suc (suc k)),
      pow-suc 2 (suc (suc (suc k))),
      pow-suc 2 (suc (suc (suc (suc k)))),
    )

bits_add :
    (n result shift : ℕ)
    → result + n % 32 * 2 ^ shift + n / 32 * 2 ^ (shift + 5) ≡ result + n * 2 ^ shift
bits_add n result shift =
    let split : n ≡ n % 32 + n / 32 * 32 = omega arith in
    omega (
      arith,
      ap (λ k. n / 32 * k) (pow_five shift),
      sym (mul_assoc (n / 32) 32 (2 ^ shift)),
      sym (add-mul (n % 32) (n / 32 * 32) (2 ^ shift)),
      ap (λ k. k * 2 ^ shift) split,
    )

read_last :
    (n result shift : ℕ) (rest : List ℕ)
    → n < 32
    → read_number result shift ((n + 63) ∷ rest) ≡ some (result + n * 2 ^ shift, rest)
unfolding read_number
read_last n result shift rest h =
    let ends : ltb (n + 63) 95 ≡ true = ground arith in
    let bits : (n + 63 + 1) % 32 ≡ n = omega arith in rw (ends, bits) refl

read_number-encode :
    (fuel n result shift : ℕ) (rest : List ℕ)
    → n ≤ fuel
    → read_number result shift (encode_number fuel n ++ rest) ≡ some (result + n * 2 ^ shift, rest)
unfolding read_number
read_number-encode zero n result shift rest h = read_last n result shift rest (omega arith)
read_number-encode (suc fuel) n result shift rest h = elim (Bool-cases (ltb n 32)) [
  | inl last ↦ rw last (read_last n result shift rest (ground arith))
  | inr more ↦
      let next = result + n % 32 * 2 ^ shift in
      rw (more, goes_on, low_bits)
        (read_number-encode fuel (n / 32) next (shift + 5) rest (shorter more)
          ∙ ap (λ (k : ℕ). some (k, rest)) (bits_add n result shift))
]
  where
    goes_on : ltb (n % 32 + 95) 95 ≡ false
    goes_on = ground arith

    low_bits : (n % 32 + 95 + 1) % 32 ≡ n % 32
    low_bits = omega arith

    shorter : ltb n 32 ≡ false → n / 32 ≤ fuel
    shorter more = ground arith

read_signed :
    (z : ℤ) (rest : List ℕ) → read_number 0 0 (encode_signed z ++ rest) ≡ some (zigzag z, rest)
read_signed z rest =
    read_number-encode (zigzag z) (zigzag z) 0 0 rest (omega arith)
    ∙ ap (λ k. some (k, rest)) (omega (arith, pow-zero 2))

-- A number takes a character at least.
encode_number-length : (fuel n : ℕ) → 1 ≤ length (encode_number fuel n)
encode_number-length zero n = omega arith
encode_number-length (suc fuel) n = ground arith

-- One iteration of the outer loop.
read_points-step :
    (fuel : ℕ) (from : ℤ × ℤ) (encoded after_lat after_lng : List ℕ) (dlat dlng : ℕ)
    → read_number 0 0 encoded ≡ some (dlat, after_lat)
    → read_number 0 0 after_lat ≡ some (dlng, after_lng)
    → read_points (suc fuel) from encoded
      ≡ prepend
          (from.0 +ℤ unzigzag dlat, from.1 +ℤ unzigzag dlng)
          (read_points fuel (from.0 +ℤ unzigzag dlat, from.1 +ℤ unzigzag dlng) after_lng)
unfolding read_points
read_points-step fuel from [] after_lat after_lng dlat dlng e e' = cc
read_points-step fuel from (c ∷ cs) after_lat after_lng dlat dlng e e' = rw (e, e') refl

moved_to : (a b : ℤ) → (a +ℤ unzigzag (zigzag (b +ℤ neg a))) ≡ b
moved_to a b = rw (unzigzag-zigzag (b +ℤ neg a)) (add_back a b)

shorter :
    (from point : ℤ × ℤ) (points : List (ℤ × ℤ))
    → length (encode_from point points) + 1 ≤ length (encode_from from (point ∷ points))
unfolding encode_from
shorter from point points =
    let lat = point.0 +ℤ neg from.0 in
    let lng = point.1 +ℤ neg from.1 in
    omega (
      arith,
      encode_number-length (zigzag lat) (zigzag lat),
      length-append (encode_signed lat) (encode_signed lng ++ encode_from point points),
      length-append (encode_signed lng) (encode_from point points),
    )

read_points-encode :
    (fuel : ℕ) (from : ℤ × ℤ) (points : List (ℤ × ℤ))
    → length (encode_from from points) ≤ fuel
    → read_points fuel from (encode_from from points) ≡ some points
unfolding read_points encode_from
read_points-encode fuel from [] h = refl
read_points-encode zero from (point ∷ points) h = absurd (omega (arith, shorter from point points))
read_points-encode (suc fuel) from (point ∷ points) h =
    let rest = encode_from point points in
    let lng = encode_signed (point.1 +ℤ neg from.1) ++ rest in
    let step =
      read_points-step fuel from (encode_signed (point.0 +ℤ neg from.0) ++ lng) lng rest
        (zigzag (point.0 +ℤ neg from.0)) (zigzag (point.1 +ℤ neg from.1))
        (read_signed (point.0 +ℤ neg from.0) lng) (read_signed (point.1 +ℤ neg from.1) rest) in
    let here : ◌≡◌ {A = ℤ × ℤ}
        (
          from.0 +ℤ unzigzag (zigzag (point.0 +ℤ neg from.0)),
          from.1 +ℤ unzigzag (zigzag (point.1 +ℤ neg from.1)),
        )
        point =
      ap (λ (x : ℤ). (x, from.1 +ℤ unzigzag (zigzag (point.1 +ℤ neg from.1))))
        (moved_to from.0 point.0)
      ∙ ap (λ (y : ℤ). (point.0, y)) (moved_to from.1 point.1) in
    step
    ∙ ap (λ (p : ℤ × ℤ). prepend p (read_points fuel p rest)) here
    ∙ ap (prepend point)
        (read_points-encode fuel point points (omega (arith, shorter from point points)))

-- Decoding the encoding of any points gives the points, whatever their coordinates.
pub decode_polyline-encode_polyline :
    (points : List (ℤ × ℤ)) → decode_polyline (some (encode_polyline points)) ≡ points
unfolding decode_polyline encode_polyline
decode_polyline-encode_polyline points = ap or_empty (
    read_points-encode (length (encode_from (pos 0, pos 0) points)) (pos 0, pos 0) points
      (omega arith))
