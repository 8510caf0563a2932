-- ===== src/Base64.antt =====
-- encoding/base64 of Go: StdEncoding, with its padding. EncodeToString, and DecodeString with its
-- line breaks skipped.
pub mod RoundTrip
use dns_over_minecraft.Prelude.{
  ℕ, ◌+◌, ◌-◌, ◌*◌, ◌/◌, ◌%◌, Bool, true, false, ◌&&◌, ◌||◌, List, [], ◌∷◌, ◌++◌, leb, ltb, ◌==◌,
  if◌then◌else◌, Option, none, some, length,
}

-- The alphabet A-Za-z0-9+/.
unfoldable pub symbol : ℕ → ℕ
symbol v =
    if ltb v 26
    then b'A' + v
    else if ltb v 52
    then b'a' + (v - 26)
    else if ltb v 62
    then b'0' + (v - 52)
    else if v == 62
    then b'+'
    else b'/'

unfoldable pub symbol_value : ℕ → Option ℕ
symbol_value c =
    if leb b'A' c && leb c b'Z'
    then some (c - b'A')
    else if leb b'a' c && leb c b'z'
    then some (c - b'a' + 26)
    else if leb b'0' c && leb c b'9'
    then some (c - b'0' + 52)
    else if c == b'+'
    then some 62
    else if c == b'/'
    then some 63
    else none

-- Three bytes are four groups of six bits; a shorter end is filled with zero bits and padded.
unfoldable pub base64_encode : List ℕ → List ℕ
unfolding symbol
base64_encode [] = []
base64_encode (a ∷ []) = symbol (a / 4) ∷ symbol (a % 4 * 16) ∷ b'=' ∷ b'=' ∷ []
base64_encode (a ∷ b ∷ []) =
    symbol (a / 4) ∷ symbol (a % 4 * 16 + b / 16) ∷ symbol (b % 16 * 4) ∷ b'=' ∷ []
base64_encode (a ∷ b ∷ c ∷ rest) =
    symbol (a / 4)
    ∷ symbol (a % 4 * 16 + b / 16)
    ∷ symbol (b % 16 * 4 + c / 64)
    ∷ symbol (c % 64)
    ∷ base64_encode rest

unfoldable pub two_symbols : ℕ → ℕ → Option (List ℕ)
unfolding symbol_value
two_symbols a b = elim (symbol_value a) [
  | none ↦ none
  | some v ↦ elim (symbol_value b) [ none ↦ none | some w ↦ some ((v * 4 + w / 16) ∷ []) ]
]

unfoldable pub three_symbols : ℕ → ℕ → ℕ → Option (List ℕ)
unfolding symbol_value two_symbols
three_symbols a b c = elim (symbol_value c) [
  | none ↦ none
  | some x ↦ elim (symbol_value a) [
    | none ↦ none
    | some v ↦ elim (symbol_value b) [
      | none ↦ none
      | some w ↦ some ((v * 4 + w / 16) ∷ (w % 16 * 16 + x / 4) ∷ [])
    ]
  ]
]

unfoldable pub four_symbols : ℕ → ℕ → ℕ → ℕ → Option (List ℕ)
unfolding symbol_value
four_symbols a b c d = elim (symbol_value a) [
  | none ↦ none
  | some v ↦ elim (symbol_value b) [
    | none ↦ none
    | some w ↦ elim (symbol_value c) [
      | none ↦ none
      | some x ↦ elim (symbol_value d) [
        | none ↦ none
        | some y ↦ some ((v * 4 + w / 16) ∷ (w % 16 * 16 + x / 4) ∷ (x % 4 * 64 + y) ∷ [])
      ]
    ]
  ]
]

-- The bytes of groups of four characters; only the last may be padded.
unfoldable pub from_groups : List ℕ → Option (List ℕ)
unfolding two_symbols three_symbols four_symbols
from_groups [] = some []
from_groups (a ∷ []) = none
from_groups (a ∷ b ∷ []) = none
from_groups (a ∷ b ∷ c ∷ []) = none
from_groups (a ∷ b ∷ c ∷ d ∷ rest) =
    let more = from_groups rest in
    let padded = if c == b'=' then two_symbols a b else three_symbols a b c in
    if d == b'=' then (if length rest == 0 then padded else none) else elim (four_symbols a b c d) [
      | none ↦ none
      | some front ↦ elim more [ none ↦ none | some back ↦ some (front ++ back) ]
    ]

unfoldable pub without_breaks : List ℕ → List ℕ
without_breaks [] = []
without_breaks (c ∷ text) =
    let rest = without_breaks text in if c == 10 || c == 13 then rest else c ∷ rest

unfoldable pub base64_decode : List ℕ → Option (List ℕ)
unfolding without_breaks from_groups
base64_decode text = from_groups (without_breaks text)
