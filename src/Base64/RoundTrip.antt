-- ===== src/Base64/RoundTrip.antt =====
-- base64: decoding takes back what encoding wrote.
use dns_over_minecraft.Prelude.{
  ℕ, ◌+◌, ◌*◌, ◌/◌, ◌%◌, ◌<◌, ◌≡◌, ◌≢◌, refl, ap, arith, List, [], ◌∷◌, ◌++◌, some, All, ◌==◌,
  false,
}
use dns_over_minecraft.Bytes.{IsByte}
use dns_over_minecraft.Base64.{
  symbol, symbol_value, base64_encode, two_symbols, three_symbols, four_symbols, from_groups,
  without_breaks, base64_decode,
}

-- A printing character of ASCII, other than the space.
abbrev pub IsVisible : ℕ → Type 0
IsVisible c = (32 < c) × (c < 127)

symbol_lem :
    (v : ℕ) → v < 64 → (symbol_value (symbol v) ≡ some v) × IsVisible (symbol v) × (symbol v ≢ b'=')
unfolding symbol symbol_value
symbol_lem v h = ground arith

-- The text has no space and no line break.
pub base64_encode-IsVisible :
    (bytes : List ℕ) → All IsByte bytes → All IsVisible (base64_encode bytes)
unfolding base64_encode
base64_encode-IsVisible [] h = tt
base64_encode-IsVisible (a ∷ []) (ha, _) = (
  (symbol_lem (a / 4) (omega arith)).1,
  ((symbol_lem (a % 4 * 16) (omega arith)).1, (omega arith, (omega arith, tt))),
)
base64_encode-IsVisible (a ∷ b ∷ []) (ha, (hb, _)) = (
  (symbol_lem (a / 4) (omega arith)).1,
  (
    (symbol_lem (a % 4 * 16 + b / 16) (omega arith)).1,
    ((symbol_lem (b % 16 * 4) (omega arith)).1, (omega arith, tt)),
  ),
)
base64_encode-IsVisible (a ∷ b ∷ c ∷ rest) (ha, (hb, (hc, hr))) = (
  (symbol_lem (a / 4) (omega arith)).1,
  (
    (symbol_lem (a % 4 * 16 + b / 16) (omega arith)).1,
    (
      (symbol_lem (b % 16 * 4 + c / 64) (omega arith)).1,
      ((symbol_lem (c % 64) (omega arith)).1, base64_encode-IsVisible rest hr),
    ),
  ),
)

without_breaks_visible : (text : List ℕ) → All IsVisible text → without_breaks text ≡ text
unfolding without_breaks
without_breaks_visible [] h = refl
without_breaks_visible (c ∷ text) (h, hs) = ground (arith, without_breaks_visible text hs)

two_symbols_lem :
    (v w : ℕ) → v < 64 → w < 64 → two_symbols (symbol v) (symbol w) ≡ some ((v * 4 + w / 16) ∷ [])
unfolding two_symbols
two_symbols_lem v w hv hw = rw ((symbol_lem v hv).0, (symbol_lem w hw).0, two_symbols) refl

three_symbols_lem :
    (v w x : ℕ)
    → v < 64
    → w < 64
    → x < 64
    → three_symbols (symbol v) (symbol w) (symbol x)
      ≡ some ((v * 4 + w / 16) ∷ (w % 16 * 16 + x / 4) ∷ [])
unfolding three_symbols
three_symbols_lem v w x hv hw hx =
    rw ((symbol_lem x hx).0, (symbol_lem v hv).0, (symbol_lem w hw).0, three_symbols) refl

four_symbols_lem :
    (v w x y : ℕ)
    → v < 64
    → w < 64
    → x < 64
    → y < 64
    → four_symbols (symbol v) (symbol w) (symbol x) (symbol y)
      ≡ some ((v * 4 + w / 16) ∷ (w % 16 * 16 + x / 4) ∷ (x % 4 * 64 + y) ∷ [])
unfolding four_symbols
four_symbols_lem v w x y hv hw hx hy =
    rw
      (
        (symbol_lem v hv).0,
        (symbol_lem w hw).0,
        (symbol_lem x hx).0,
        (symbol_lem y hy).0,
        four_symbols,
      )
      refl

symbol_is_no_padding : (v : ℕ) → v < 64 → (symbol v == b'=') ≡ false
symbol_is_no_padding v h = ground (arith, symbol_lem v h)

three_bytes :
    (a b c : ℕ)
    → IsByte a
    → IsByte b
    → IsByte c
    → (a / 4 * 4 + (a % 4 * 16 + b / 16) / 16)
        ∷ ((a % 4 * 16 + b / 16) % 16 * 16 + (b % 16 * 4 + c / 64) / 4)
        ∷ ((b % 16 * 4 + c / 64) % 4 * 64 + c % 64)
        ∷ []
      ≡ a ∷ b ∷ c ∷ []
three_bytes a b c ha hb hc =
    let first : a / 4 * 4 + (a % 4 * 16 + b / 16) / 16 ≡ a = omega arith in
    let second : (a % 4 * 16 + b / 16) % 16 * 16 + (b % 16 * 4 + c / 64) / 4 ≡ b = omega arith in
    let third : (b % 16 * 4 + c / 64) % 4 * 64 + c % 64 ≡ c = omega arith in
    rw (first, second, third) refl

from_groups-encode :
    (bytes : List ℕ) → All IsByte bytes → from_groups (base64_encode bytes) ≡ some bytes
unfolding from_groups base64_encode
from_groups-encode [] h = refl
from_groups-encode (a ∷ []) (ha, _) =
    rw (two_symbols_lem (a / 4) (a % 4 * 16) (omega arith) (omega arith))
      (let only : a / 4 * 4 + a % 4 * 16 / 16 ≡ a = omega arith in rw only refl)
from_groups-encode (a ∷ b ∷ []) (ha, (hb, _)) =
    rw
      (
        symbol_is_no_padding (b % 16 * 4) (omega arith),
        three_symbols_lem (a / 4) (a % 4 * 16 + b / 16) (b % 16 * 4) (omega arith) (omega arith)
            (omega arith),
      )
      (let first : a / 4 * 4 + (a % 4 * 16 + b / 16) / 16 ≡ a = omega arith in
        let second : (a % 4 * 16 + b / 16) % 16 * 16 + b % 16 * 4 / 4 ≡ b = omega arith in
        rw (first, second) refl)
from_groups-encode (a ∷ b ∷ c ∷ rest) (ha, (hb, (hc, hr))) =
    rw
      (
        symbol_is_no_padding (c % 64) (omega arith),
        four_symbols_lem (a / 4) (a % 4 * 16 + b / 16) (b % 16 * 4 + c / 64) (c % 64) (omega arith)
            (omega arith) (omega arith) (omega arith),
        from_groups-encode rest hr,
      )
      (ap (λ group. some (group ++ rest)) (three_bytes a b c ha hb hc))

pub base64_decode-encode :
    (bytes : List ℕ) → All IsByte bytes → base64_decode (base64_encode bytes) ≡ some bytes
unfolding base64_decode
base64_decode-encode bytes h =
    rw (without_breaks_visible (base64_encode bytes) (base64_encode-IsVisible bytes h))
      (from_groups-encode bytes h)
