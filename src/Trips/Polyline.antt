-- ===== src/Trips/Polyline.antt =====
-- src/trips/polyline.py: the decoder of Google-encoded polylines. A text is the list of its
-- characters' codes, and a coordinate counts steps of 1e-5 degrees.
pub mod RoundTrip
use agentic_guide_system.Prelude.{
  ℕ, zero, suc, ◌+◌, ◌-◌, ◌*◌, ◌/◌, ◌%◌, ◌^◌, Option, none, some, Bool, true, false, List, [], ◌∷◌,
  ◌==◌, ltb, length, if◌then◌else◌,
}
use agentic_guide_system.Prelude.Int.{ℤ, pos, negsuc}

abbrev sub_nat : ℕ → ℕ → ℤ
sub_nat m n = if ltb m n then negsuc (n - suc m) else pos (m - n)

infixl 65 ◌+ℤ◌
abbrev pub ◌+ℤ◌ : ℤ → ℤ → ℤ
pos m +ℤ pos n = pos (m + n)
pos m +ℤ negsuc n = sub_nat m (suc n)
negsuc m +ℤ pos n = sub_nat n (suc m)
negsuc m +ℤ negsuc n = negsuc (suc (m + n))

-- `(ord(c) - 63) & 0x1F`, also below 63.
abbrev chunk : ℕ → ℕ
chunk c = (c + 1) % 32

-- The inner `while True`: a number and the rest of the text, or none where the text ends early. A
-- chunk's bits lie above those of the result so far, so `|=` adds.
unfoldable pub read_number : ℕ → ℕ → List ℕ → Option (ℕ × List ℕ)
read_number result shift [] = none
read_number result shift (c ∷ cs) =
    let next = result + chunk c * 2 ^ shift in
    let more = read_number next (shift + 5) cs in if ltb c 95 then some (next, cs) else more

-- `~(result >> 1) if result & 1 else (result >> 1)`
unfoldable pub unzigzag : ℕ → ℤ
unzigzag result = if result % 2 == 1 then negsuc (result / 2) else pos (result / 2)

infixl 5 ◌>>=◌
abbrev ◌>>=◌ {α β} : {A : Type α} {B : Type β} → Option A → (A → Option B) → Option B
none >>= rest = none
some a >>= rest = rest a

abbrev prepend : ℤ × ℤ → Option (List (ℤ × ℤ)) → Option (List (ℤ × ℤ))
prepend point none = none
prepend point (some points) = some (point ∷ points)

-- The outer loop, from the point that was read last; each iteration reads a character at least.
unfoldable pub read_points : ℕ → ℤ × ℤ → List ℕ → Option (List (ℤ × ℤ))
unfolding read_number unzigzag
read_points fuel (lat, lng) [] = some []
read_points zero (lat, lng) (c ∷ cs) = none
read_points (suc fuel) (lat, lng) (c ∷ cs) = do
  (dlat, after_lat) ← read_number 0 0 (c ∷ cs)
  (dlng, after_lng) ← read_number 0 0 after_lat
  let point : ℤ × ℤ = (lat +ℤ unzigzag dlat, lng +ℤ unzigzag dlng)
  prepend point (read_points fuel point after_lng)

abbrev or_empty : Option (List (ℤ × ℤ)) → List (ℤ × ℤ)
or_empty none = []
or_empty (some points) = points

unfoldable pub decode_polyline : Option (List ℕ) → List (ℤ × ℤ)
unfolding read_points
decode_polyline none = []
decode_polyline (some encoded) = or_empty (read_points (length encoded) (pos 0, pos 0) encoded)
