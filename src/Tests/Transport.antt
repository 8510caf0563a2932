-- ===== src/Tests/Transport.antt =====
-- The theorems on internal/mc at concrete inputs.
use dns_over_minecraft.Prelude.{
  some, none, All, if◌then◌else◌, bytes_eq, ℕ, zero, suc, ◌+◌, ◌-◌, ◌*◌, ◌/◌, ◌%◌, ◌^◌, ◌<◌, ◌≤◌,
  ◌≡◌, refl, arith, true, List, [], ◌∷◌, ◌++◌, length, ok,
}
use dns_over_minecraft.Bytes.{put_uvarint}
use dns_over_minecraft.Text.{codes, split_dots}
use dns_over_minecraft.Codec.Query.{strip_suffix}
use dns_over_minecraft.Mc.Address.{fragment_address, fragment_port, is_fragmented, fragment_parts}
use dns_over_minecraft.Mc.Address.Fragments.{bare_fragment, fragment_parts-fragment_address}
use dns_over_minecraft.Mc.VarInt.{read_var_int, write_string, read_var_int_loop}
use dns_over_minecraft.Mc.VarInt.RoundTrip.{read_var_int-put_uvarint}
use dns_over_minecraft.Mc.VarInt.Bounds.{read_var_int_bounds}
use dns_over_minecraft.Mc.Frame.{
  Handshake, read_frame, read_frame_limit, encode_handshake, parse_handshake,
  encode_status_response_json, status_json,
}
use dns_over_minecraft.Mc.Frame.RoundTrip.{read-encode_handshake}
use dns_over_minecraft.Mc.Frame.Client.{status_response_received, status_json_brace}
use dns_over_minecraft.Mc.RateLimit.{new_ip_rate_limiter, token}
use dns_over_minecraft.Mc.RateLimit.Budget.{Request, passed, passed_budget}
use dns_over_minecraft.Mc.Fragment.{empty_set}
use dns_over_minecraft.Mc.Fragment.Indices.{elem, InRange}
use dns_over_minecraft.Mc.Fragment.Assembly.{assembled, assembled_once, assembled_missing}
use dns_over_minecraft.Mc.Address.{auth_prefix_for, extract_passphrase, split_encoded_pieces}
use dns_over_minecraft.Mc.Address.Single.{extract_passphrase-auth_prefix_for}
use dns_over_minecraft.Mc.Address.Pieces.{IsPiece, flatten-split_encoded_pieces}
use mathlib.Core.List.{flatten}

read_var_int-put_uvarint_example :
    read_var_int (put_uvarint 34359738367 ++ (7 ∷ []))
    ≡ ok (34359738367, length (put_uvarint 34359738367), 7 ∷ [])
read_var_int-put_uvarint_example = read_var_int-put_uvarint 34359738367 (7 ∷ []) (omega arith)

abbrev three_hundred : List ℕ
three_hundred = 172 ∷ 2 ∷ 9 ∷ []

abbrev nine : List ℕ
nine = 9 ∷ []

read_var_int_bounds_example :
    (300 < 2 ^ (7 * 2)) × (0 < 2) × (2 ≤ 5) × (length three_hundred ≡ length nine + 2)
unfolding read_var_int read_var_int_loop
read_var_int_bounds_example =
    read_var_int_bounds three_hundred 300 2 nine (omega arith, (omega arith, (omega arith, tt)))
      refl

abbrev handshake : Handshake
handshake = record {
  protocol_version = 769;
  server_address = codes "aeaae.mc";
  server_port = 25565;
  next_state = 1;
}

read-encode_handshake_example :
    (payload : List ℕ) × (read_frame_limit (encode_handshake handshake ++ []) 4096
      ≡ ok (0, payload, []))
    × (parse_handshake payload ≡ ok handshake)
read-encode_handshake_example =
    read-encode_handshake 4096 handshake [] (omega arith) (omega arith) (omega arith) (omega arith)
      (omega arith) (omega arith)

status_response_received_example :
    (payload : List ℕ) × (read_frame (encode_status_response_json (codes "{}") ++ [])
      ≡ ok (0, payload, []))
    × (status_json payload ≡ codes "{}")
status_response_received_example =
    status_response_received (codes "{}") [] (omega arith) (ground arith)

abbrev long_text : ℕ → List ℕ
long_text zero = []
long_text (suc n) = b'a' ∷ long_text n

status_json_brace_example : status_json (write_string (long_text 123)) ≡ b'{' ∷ long_text 123
status_json_brace_example = status_json_brace (long_text 123) refl

abbrev two_requests : List Request
two_requests = (5, 1 ∷ []) ∷ (6, 1 ∷ []) ∷ []

passed_budget_example :
    passed (1 ∷ []) (new_ip_rate_limiter 1) two_requests * token ≤ 1 * token + 1 * (6 - 5)
passed_budget_example =
    passed_budget 1 (1 ∷ []) two_requests 5 6 (omega arith)
      (omega arith, (omega arith, omega arith))

abbrev two_pieces : List (List ℕ)
two_pieces = codes "ab" ∷ codes "cd" ∷ []

first_or_second : (j : ℕ) → InRange 2 j → elem j (2 ∷ 1 ∷ 2 ∷ []) ≡ true
unfolding elem
first_or_second j (h, k) = ground arith

assembled_once_example : assembled two_pieces empty_set (2 ∷ 1 ∷ 2 ∷ []) ≡ flatten two_pieces ∷ []
assembled_once_example =
    assembled_once (codes "ab") (codes "cd" ∷ []) (2 ∷ 1 ∷ 2 ∷ [])
      ((omega arith, omega arith), ((omega arith, omega arith), ((omega arith, omega arith), tt)))
      first_or_second

assembled_missing_example : assembled two_pieces empty_set (2 ∷ 2 ∷ []) ≡ []
unfolding elem
assembled_missing_example =
    assembled_missing (codes "ab") (codes "cd" ∷ []) (2 ∷ 2 ∷ []) 1
      ((omega arith, omega arith), ((omega arith, omega arith), tt)) (omega arith, omega arith) refl

extract_passphrase-auth_prefix_for_example :
    extract_passphrase (auth_prefix_for (codes "key") ++ codes "aeaae") (codes "key")
    ≡ (if bytes_eq (codes "key") (codes "key") then some (codes "aeaae") else none)
extract_passphrase-auth_prefix_for_example =
    extract_passphrase-auth_prefix_for b'k' (codes "ey") (codes "aeaae") (codes "key")
      (ground arith, (ground arith, (ground arith, tt)))

flatten-split_encoded_pieces_example :
    (flatten (split_encoded_pieces (codes "abcde") 2) ≡ codes "abcde")
    × All (IsPiece 2) (split_encoded_pieces (codes "abcde") 2)
flatten-split_encoded_pieces_example = flatten-split_encoded_pieces (codes "abcde") 2 (omega arith)

abbrev fragment_handshake : Handshake
fragment_handshake = record {
  protocol_version = 765;
  server_address = fragment_address (codes "key") (codes "aeaq") (codes "74aacbthn5") (codes ".mc");
  server_port = fragment_port 0 2;
  next_state = 1;
}

fragment_parts-fragment_address_example :
    (strip_suffix
        (fragment_address (codes "key") (codes "aeaq") (codes "74aacbthn5") (codes ".mc"))
        (codes ".mc")
      ≡ auth_prefix_for (codes "key") ++ bare_fragment (codes "aeaq") (codes "74aacbthn5"))
    × (is_fragmented fragment_handshake (bare_fragment (codes "aeaq") (codes "74aacbthn5")) ≡ true)
    × (fragment_parts (split_dots (bare_fragment (codes "aeaq") (codes "74aacbthn5")))
        ≡ some (codes "aeaq", codes "74aacbthn5"))
    × (fragment_handshake.server_port / 2 ^ 8 ≡ 0 + 1)
    × (fragment_handshake.server_port % 2 ^ 8 ≡ 2)
fragment_parts-fragment_address_example =
    fragment_parts-fragment_address (codes "key") (codes "aeaq") (codes "74aacbthn5") (codes ".mc")
      0 2 fragment_handshake (ground arith) refl (ground arith) (omega arith) (omega arith)
      (omega arith) (omega arith) refl
