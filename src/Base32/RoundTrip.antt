-- ===== src/Base32/RoundTrip.antt =====
-- base32: decoding takes back what encoding wrote, in either case, and the text has no dot.
use dns_over_minecraft.Prelude.{ℕ, ◌≡◌, ◌≢◌, refl, ap, arith, List, [], ◌∷◌, map, some, All, ◌<◌}
use dns_over_minecraft.Bytes.{IsByte}
use dns_over_minecraft.Text.{lower_byte, upper_byte, to_lower, to_upper, NoDot}
use dns_over_minecraft.Base32.{
  symbol, symbol_value, quintets, base32_encode, from_quintets, symbol_values, base32_decode,
}

abbrev IsQuintet : ℕ → Type 0
IsQuintet v = v < 32

quintets-IsQuintet : (bytes : List ℕ) → All IsByte bytes → All IsQuintet (quintets bytes)
unfolding quintets
quintets-IsQuintet [] h = tt
quintets-IsQuintet (a ∷ []) h = omega arith
quintets-IsQuintet (a ∷ b ∷ []) h = omega arith
quintets-IsQuintet (a ∷ b ∷ c ∷ []) h = omega arith
quintets-IsQuintet (a ∷ b ∷ c ∷ d ∷ []) h = omega arith
quintets-IsQuintet (a ∷ b ∷ c ∷ d ∷ e ∷ rest) (ha, (hb, (hc, (hd, (he, hr))))) = (
  omega arith,
  (
    omega arith,
    (
      omega arith,
      (
        omega arith,
        (omega arith, (omega arith, (omega arith, (omega arith, quintets-IsQuintet rest hr)))),
      ),
    ),
  ),
)

from_quintets-quintets :
    (bytes : List ℕ) → All IsByte bytes → from_quintets (quintets bytes) ≡ bytes
unfolding quintets from_quintets
from_quintets-quintets [] h = refl
from_quintets-quintets (a ∷ []) h = ground arith
from_quintets-quintets (a ∷ b ∷ []) h = ground arith
from_quintets-quintets (a ∷ b ∷ c ∷ []) h = ground arith
from_quintets-quintets (a ∷ b ∷ c ∷ d ∷ []) h = ground arith
from_quintets-quintets (a ∷ b ∷ c ∷ d ∷ e ∷ rest) (ha, (hb, (hc, (hd, (he, hr))))) =
    ground (arith, from_quintets-quintets rest hr)

abbrev lower_symbol : ℕ → ℕ
lower_symbol v = lower_byte (symbol v)

upper-lower_symbol : (v : ℕ) → v < 32 → upper_byte (lower_symbol v) ≡ symbol v
unfolding upper_byte lower_byte symbol
upper-lower_symbol v h = ground arith

symbol_value-symbol :
    (v : ℕ) → v < 32 → (symbol_value (symbol v) ≡ some v) × (symbol v ≢ 10) × (symbol v ≢ 13)
unfolding symbol_value symbol
symbol_value-symbol v h = ground arith

lower_symbol_NoDot : (v : ℕ) → v < 32 → lower_symbol v ≢ b'.'
unfolding lower_byte symbol
lower_symbol_NoDot v h = ground arith

lower_encoded : (vs : List ℕ) → to_lower (map symbol vs) ≡ map lower_symbol vs
unfolding to_lower
lower_encoded [] = refl
lower_encoded (v ∷ vs) = ap (◌∷◌ (lower_symbol v)) (lower_encoded vs)

upper_encoded : (vs : List ℕ) → All IsQuintet vs → to_upper (map lower_symbol vs) ≡ map symbol vs
unfolding to_upper
upper_encoded [] h = refl
upper_encoded (v ∷ vs) (h, hs) = cc (upper-lower_symbol v h, upper_encoded vs hs)

symbol_values-map : (vs : List ℕ) → All IsQuintet vs → symbol_values (map symbol vs) ≡ some vs
unfolding symbol_values
symbol_values-map [] h = refl
symbol_values-map (v ∷ vs) (h, hs) =
    ground (arith, symbol_value-symbol v h, symbol_values-map vs hs)

lower_NoDot : (vs : List ℕ) → All IsQuintet vs → NoDot (map lower_symbol vs)
lower_NoDot [] h = tt
lower_NoDot (v ∷ vs) (h, hs) = (lower_symbol_NoDot v h, lower_NoDot vs hs)

-- The text that EncodeQuery makes of base32, put back in upper case, decodes to the same bytes.
pub base32_decode-encode :
    (bytes : List ℕ)
    → All IsByte bytes
    → base32_decode (to_upper (to_lower (base32_encode bytes))) ≡ some bytes
unfolding base32_decode base32_encode
base32_decode-encode bytes h =
    let q = quintets-IsQuintet bytes h in
    rw
      (
        lower_encoded (quintets bytes),
        upper_encoded (quintets bytes) q,
        symbol_values-map (quintets bytes) q,
        base32_decode,
      )
      (ap some (from_quintets-quintets bytes h))

pub base32_encode-NoDot :
    (bytes : List ℕ) → All IsByte bytes → NoDot (to_lower (base32_encode bytes))
unfolding base32_encode
base32_encode-NoDot bytes h =
    rw (lower_encoded (quintets bytes)) (lower_NoDot (quintets bytes) (quintets-IsQuintet bytes h))
