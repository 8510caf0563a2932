-- ===== src/Base32.antt =====
-- encoding/base32 of Go: StdEncoding with no padding. EncodeToString, and DecodeString with its
-- line breaks skipped and its last group of one to seven characters.
pub mod RoundTrip
use dns_over_minecraft.Prelude.{
  ℕ, suc, ◌+◌, ◌-◌, ◌*◌, ◌/◌, ◌%◌, Bool, true, false, ◌&&◌, ◌||◌, List, [], ◌∷◌, ◌++◌, map, leb,
  ltb, ◌==◌, if◌then◌else◌, Option, none, some,
}

-- The alphabet A-Z2-7.
unfoldable pub symbol : ℕ → ℕ
symbol v = if ltb v 26 then b'A' + v else b'2' + (v - 26)

unfoldable pub symbol_value : ℕ → Option ℕ
symbol_value c =
    if leb b'A' c && leb c b'Z'
    then some (c - b'A')
    else if leb b'2' c && leb c b'7'
    then some (c - b'2' + 26)
    else none

-- Five bytes are eight groups of five bits; a shorter end is filled with zero bits.
unfoldable pub quintets : List ℕ → List ℕ
quintets [] = []
quintets (a ∷ []) = (a / 8) ∷ (a % 8 * 4) ∷ []
quintets (a ∷ b ∷ []) = (a / 8) ∷ (a % 8 * 4 + b / 64) ∷ (b / 2 % 32) ∷ (b % 2 * 16) ∷ []
quintets (a ∷ b ∷ c ∷ []) =
    (a / 8) ∷ (a % 8 * 4 + b / 64) ∷ (b / 2 % 32) ∷ (b % 2 * 16 + c / 16) ∷ (c % 16 * 2) ∷ []
quintets (a ∷ b ∷ c ∷ d ∷ []) =
    (a / 8)
    ∷ (a % 8 * 4 + b / 64)
    ∷ (b / 2 % 32)
    ∷ (b % 2 * 16 + c / 16)
    ∷ (c % 16 * 2 + d / 128)
    ∷ (d / 4 % 32)
    ∷ (d % 4 * 8)
    ∷ []
quintets (a ∷ b ∷ c ∷ d ∷ e ∷ rest) =
    (a / 8)
    ∷ (a % 8 * 4 + b / 64)
    ∷ (b / 2 % 32)
    ∷ (b % 2 * 16 + c / 16)
    ∷ (c % 16 * 2 + d / 128)
    ∷ (d / 4 % 32)
    ∷ (d % 4 * 8 + e / 32)
    ∷ (e % 32)
    ∷ quintets rest

unfoldable pub base32_encode : List ℕ → List ℕ
unfolding symbol quintets
base32_encode bytes = map symbol (quintets bytes)

abbrev byte1 : ℕ → ℕ → ℕ
byte1 a b = a * 8 + b / 4

abbrev byte2 : ℕ → ℕ → ℕ → ℕ
byte2 b c d = b % 4 * 64 + c * 2 + d / 16

abbrev byte3 : ℕ → ℕ → ℕ
byte3 d e = d % 16 * 16 + e / 2

abbrev byte4 : ℕ → ℕ → ℕ → ℕ
byte4 e f g = e % 2 * 128 + f * 4 + g / 8

abbrev byte5 : ℕ → ℕ → ℕ
byte5 g h = g % 8 * 32 + h

-- The bytes of groups of five bits below 32. An end of one, three or six groups gives no byte.
unfoldable pub from_quintets : List ℕ → List ℕ
from_quintets [] = []
from_quintets (a ∷ []) = []
from_quintets (a ∷ b ∷ []) = byte1 a b ∷ []
from_quintets (a ∷ b ∷ c ∷ []) = []
from_quintets (a ∷ b ∷ c ∷ d ∷ []) = byte1 a b ∷ byte2 b c d ∷ []
from_quintets (a ∷ b ∷ c ∷ d ∷ e ∷ []) = byte1 a b ∷ byte2 b c d ∷ byte3 d e ∷ []
from_quintets (a ∷ b ∷ c ∷ d ∷ e ∷ f ∷ []) = []
from_quintets (a ∷ b ∷ c ∷ d ∷ e ∷ f ∷ g ∷ []) =
    byte1 a b ∷ byte2 b c d ∷ byte3 d e ∷ byte4 e f g ∷ []
from_quintets (a ∷ b ∷ c ∷ d ∷ e ∷ f ∷ g ∷ h ∷ rest) =
    byte1 a b ∷ byte2 b c d ∷ byte3 d e ∷ byte4 e f g ∷ byte5 g h ∷ from_quintets rest

-- The values of the characters, line breaks skipped; none at a character outside the alphabet.
unfoldable pub symbol_values : List ℕ → Option (List ℕ)
unfolding symbol_value
symbol_values [] = some []
symbol_values (c ∷ text) =
    let rest = symbol_values text in
    if c == 10 || c == 13 then rest else elim (symbol_value c) [
      | none ↦ none
      | some v ↦ elim rest [ none ↦ none | some vs ↦ some (v ∷ vs) ]
    ]

unfoldable pub base32_decode : List ℕ → Option (List ℕ)
unfolding symbol_values from_quintets
base32_decode text = elim (symbol_values text) [ none ↦ none | some vs ↦ some (from_quintets vs) ]
