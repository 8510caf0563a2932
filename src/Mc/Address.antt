-- ===== src/Mc/Address.antt =====
-- The server addresses of internal/mc/client.go (authPrefixFor, splitEncodedPieces, chunkLabels,
-- withSuffix, the addresses of Query and queryFragmented) and what internal/mc/server.go takes out
-- of them (extractPassphrase, isFragmented, the parts of handleFragmentConnection).
pub mod Single
pub mod Pieces
pub mod Suffix
pub mod Fragments
use dns_over_minecraft.Prelude.{
  ℕ, zero, suc, ◌+◌, ◌-◌, ◌*◌, ◌/◌, ◌%◌, ◌^◌, Bool, false, ◌&&◌, List, [], ◌∷◌, ◌++◌, leb, ltb,
  ◌==◌, if◌then◌else◌, Option, none, some, length, take, drop, bytes_eq, bit_or,
}
use dns_over_minecraft.Text.{has_prefix, trim_prefix, cut_dot, split_dots, join}
use dns_over_minecraft.Mc.Frame.{Handshake}

abbrev pub max_single_server_address : ℕ
max_single_server_address = 255

abbrev pub min_fragment_pieces : ℕ
min_fragment_pieces = 2

abbrev pub max_fragment_pieces : ℕ
max_fragment_pieces = 16

abbrev pub fragment_max_label_length : ℕ
fragment_max_label_length = 60

-- "p."
abbrev pub passphrase_marker : List ℕ
passphrase_marker = b'p' ∷ b'.' ∷ []

unfoldable pub auth_prefix_for : List ℕ → List ℕ
auth_prefix_for [] = []
auth_prefix_for (b ∷ passphrase) = passphrase_marker ++ ((b ∷ passphrase) ++ (b'.' ∷ []))

unfoldable pub with_suffix : List ℕ → List ℕ → List ℕ
with_suffix encoded_query [] = encoded_query
with_suffix encoded_query (b ∷ suffix) =
    if has_prefix (b ∷ suffix) (b'.' ∷ [])
    then encoded_query ++ (b ∷ suffix)
    else encoded_query ++ (b'.' ∷ b ∷ suffix)

-- The comparison in constant time is that of the byte strings.
unfoldable pub extract_passphrase : List ℕ → List ℕ → Option (List ℕ)
unfolding bytes_eq
extract_passphrase bare_address passphrase =
    if has_prefix bare_address passphrase_marker
    then elim (cut_dot (drop 2 bare_address)) [
      | none ↦ none
      | some (received, rest) ↦ if bytes_eq received passphrase then some rest else none
    ]
    else none

-- The loop of splitEncodedPieces and of chunkLabels, which a length of at least 1 lets end: the
-- fuel is a bound on the length of the text.
unfoldable pub pieces_loop : ℕ → List ℕ → ℕ → List (List ℕ)
pieces_loop zero text max_length = []
pieces_loop (suc fuel) text max_length =
    let more = take max_length text ∷ pieces_loop fuel (drop max_length text) max_length in
    if ltb max_length (length text) then more else if length text == 0 then [] else text ∷ []

unfoldable pub split_encoded_pieces : List ℕ → ℕ → List (List ℕ)
unfolding pieces_loop
split_encoded_pieces encoded_query max_length =
    pieces_loop (suc (length encoded_query)) encoded_query max_length

unfoldable pub chunk_labels : List ℕ → ℕ → List ℕ
unfolding pieces_loop
chunk_labels text max_label =
    if leb (length text) max_label
    then text
    else join (b'.' ∷ []) (pieces_loop (suc (length text)) text max_label)

-- The suffix of a fragment address.
unfoldable pub suffix_with_dot : List ℕ → List ℕ
suffix_with_dot [] = []
suffix_with_dot (b ∷ suffix) = b'.' ∷ trim_prefix (b ∷ suffix) (b'.' ∷ [])

-- The length of a piece; the subtraction of the source is that of int, and 40 is the least result.
unfoldable pub max_piece_length : ℕ → ℕ → ℕ → ℕ
max_piece_length auth_length nonce_length suffix_length =
    let budget = max_single_server_address - auth_length - (nonce_length + 3) - suffix_length in
    let length' = budget * fragment_max_label_length / (fragment_max_label_length + 1) in
    if ltb length' 40 then 40 else length'

-- The address and the port of a fragment, its index counted from 0.
unfoldable pub fragment_address : List ℕ → List ℕ → List ℕ → List ℕ → List ℕ
fragment_address passphrase nonce piece suffix =
    auth_prefix_for passphrase
    ++ ((b'n' ∷ b'.' ∷ [])
        ++ (nonce
            ++ ((b'.' ∷ [])
                ++ (chunk_labels piece fragment_max_label_length ++ suffix_with_dot suffix))))

unfoldable pub fragment_port : ℕ → ℕ → ℕ
fragment_port index count = bit_or ((index + 1) * 2 ^ 8) count % 2 ^ 16

unfoldable pub fragment_shape : List (List ℕ) → Bool
fragment_shape [] = false
fragment_shape (a ∷ []) = false
fragment_shape (a ∷ b ∷ []) = false
fragment_shape (a ∷ b ∷ c ∷ rest) = length b == 4

unfoldable pub is_fragmented : Handshake → List ℕ → Bool
unfolding fragment_shape
is_fragmented h bare_address =
    let index = h.server_port / 2 ^ 8 in
    let total = h.server_port % 2 ^ 8 in
    has_prefix bare_address (b'n' ∷ b'.' ∷ [])
    && (fragment_shape (split_dots bare_address)
        && (leb 1 index
            && (leb index total
                && (leb min_fragment_pieces total && leb total max_fragment_pieces))))

-- The nonce and the piece of handleFragmentConnection, for an address of three parts or more.
unfoldable pub fragment_parts : List (List ℕ) → Option (List ℕ × List ℕ)
fragment_parts [] = none
fragment_parts (a ∷ []) = none
fragment_parts (a ∷ nonce ∷ rest) = some (nonce, join [] rest)
