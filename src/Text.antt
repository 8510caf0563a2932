-- ===== src/Text.antt =====
-- What the program uses of Go's strings package. A string is the list of its bytes; letters change
-- their case in ASCII only, which is what strings.ToLower and strings.ToUpper do on ASCII text.
pub mod Dots
use Prim.Native.Char.{code}
use Prim.Native.String.{String}
use dns_over_minecraft.Prelude.{
  ℕ, suc, ◌+◌, ◌-◌, ◌≢◌, Bool, true, false, ◌&&◌, ◌||◌, List, [], ◌∷◌, ◌++◌, map, leb, ltb, ◌==◌,
  if◌then◌else◌, Option, none, some, length, take, drop, bytes_eq,
}

-- The bytes of an ASCII literal.
abbrev pub codes : String → List ℕ
codes String.[] = []
codes (String.◌∷◌ c s) = code c ∷ codes s

unfoldable pub lower_byte : ℕ → ℕ
lower_byte b = if leb b'A' b && leb b b'Z' then b + 32 else b

unfoldable pub upper_byte : ℕ → ℕ
upper_byte b = if leb b'a' b && leb b b'z' then b - 32 else b

unfoldable pub to_lower : List ℕ → List ℕ
unfolding lower_byte
to_lower = map lower_byte

unfoldable pub to_upper : List ℕ → List ℕ
unfolding upper_byte
to_upper = map upper_byte

unfoldable pub has_prefix : List ℕ → List ℕ → Bool
unfolding bytes_eq
has_prefix s prefix = bytes_eq (take (length prefix) s) prefix

unfoldable pub has_suffix : List ℕ → List ℕ → Bool
unfolding bytes_eq
has_suffix s suffix =
    leb (length suffix) (length s) && bytes_eq (drop (length s - length suffix) s) suffix

unfoldable pub trim_prefix : List ℕ → List ℕ → List ℕ
unfolding has_prefix
trim_prefix s prefix = if has_prefix s prefix then drop (length prefix) s else s

unfoldable pub trim_suffix : List ℕ → List ℕ → List ℕ
unfolding has_suffix
trim_suffix s suffix = if has_suffix s suffix then take (length s - length suffix) s else s

abbrev pub push_byte : ℕ → List (List ℕ) → List (List ℕ)
push_byte b [] = (b ∷ []) ∷ []
push_byte b (x ∷ xs) = (b ∷ x) ∷ xs

-- `strings.Split(s, ".")`
unfoldable pub split_dots : List ℕ → List (List ℕ)
split_dots [] = [] ∷ []
split_dots (b ∷ s) = let rest = split_dots s in if b == b'.' then [] ∷ rest else push_byte b rest

-- `strings.Join(parts, sep)`
unfoldable pub join : List ℕ → List (List ℕ) → List ℕ
join sep [] = []
join sep (x ∷ []) = x
join sep (x ∷ y ∷ rest) = x ++ (sep ++ join sep (y ∷ rest))

-- `strings.ReplaceAll(s, ".", "")`
unfoldable pub remove_dots : List ℕ → List ℕ
remove_dots [] = []
remove_dots (b ∷ s) = if b == b'.' then remove_dots s else b ∷ remove_dots s

-- `strings.IndexByte(s, '.')`, cut: the text before the first dot and the text behind it.
unfoldable pub cut_dot : List ℕ → Option (List ℕ × List ℕ)
cut_dot [] = none
cut_dot (b ∷ s) =
    if b == b'.'
    then some ([], s)
    else elim (cut_dot s) [ none ↦ none | some (front, back) ↦ some (b ∷ front, back) ]

abbrev pub NoDot : List ℕ → Type 0
NoDot [] = Unit
NoDot (b ∷ s) = (b ≢ b'.') × NoDot s

-- `<` on strings.
unfoldable pub bytes_lt : List ℕ → List ℕ → Bool
bytes_lt [] [] = false
bytes_lt [] (y ∷ ys) = true
bytes_lt (x ∷ xs) [] = false
bytes_lt (x ∷ xs) (y ∷ ys) = ltb x y || (x == y && bytes_lt xs ys)

-- White space in ASCII.
unfoldable pub is_space : ℕ → Bool
is_space b = b == 32 || (leb 9 b && leb b 13)

unfoldable pub trim_left : List ℕ → List ℕ
unfolding is_space
trim_left [] = []
trim_left (b ∷ s) = let rest = trim_left s in if is_space b then rest else b ∷ s

unfoldable pub trim_right : List ℕ → List ℕ
unfolding is_space
trim_right [] = []
trim_right (b ∷ s) =
    let rest = trim_right s in if is_space b && length rest == 0 then [] else b ∷ rest

-- `strings.TrimSpace`
unfoldable pub trim_space : List ℕ → List ℕ
unfolding trim_left trim_right
trim_space s = trim_right (trim_left s)
