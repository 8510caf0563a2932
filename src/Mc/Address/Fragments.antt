-- ===== src/Mc/Address/Fragments.antt =====
-- internal/mc: the address and the port of a fragment, from queryFragmented of client.go to
-- handleFragmentConnection of server.go.
use dns_over_minecraft.Prelude.{
  ℕ, ◌+◌, ◌/◌, ◌%◌, ◌^◌, ◌<◌, ◌≤◌, ◌≡◌, refl, ap, sym, subst, ◌∙◌, arith, true, List, [], ◌∷◌, ◌++◌,
  some, length, leb, bytes_eq, All, Bool-cases, inl, inr,
}
use dns_over_minecraft.Prelude.Bits.{high_bit_or}
use dns_over_minecraft.Text.{NoDot, join, split_dots, has_prefix, trim_prefix}
use dns_over_minecraft.Text.Dots.{split_dots-join, has_prefix_append}
use dns_over_minecraft.Codec.Query.{strip_suffix}
use dns_over_minecraft.Mc.Address.{
  auth_prefix_for, with_suffix, suffix_with_dot, chunk_labels, split_encoded_pieces,
  fragment_max_label_length, fragment_address, fragment_port, fragment_shape, is_fragmented,
  fragment_parts,
}
use dns_over_minecraft.Mc.Address.Pieces.{IsPiece, flatten-split_encoded_pieces}
use dns_over_minecraft.Mc.Address.Suffix.{strip_suffix-with_suffix}
use dns_over_minecraft.Mc.Frame.{Handshake}
use mathlib.Core.List.{flatten, append_assoc, append-nil}

-- The two ways in which the client puts a suffix behind an address are one.
with_suffix_lem :
    (address suffix : List ℕ) → with_suffix address suffix ≡ address ++ suffix_with_dot suffix
unfolding with_suffix suffix_with_dot trim_prefix
with_suffix_lem address [] = sym (append-nil address)
with_suffix_lem address (b ∷ suffix) = elim (Bool-cases (has_prefix (b ∷ suffix) (b'.' ∷ []))) [
  | inl dotted ↦
      let same : b ≡ b'.' = unfold has_prefix bytes_eq in ground (arith, dotted) in
      rw (dotted) (ap (λ c. address ++ (c ∷ suffix)) same)
  | inr bare ↦ rw (bare) refl
]

NoDot-flatten : (pieces : List (List ℕ)) → NoDot (flatten pieces) → All NoDot pieces
unfolding flatten
NoDot-flatten [] h = tt
NoDot-flatten (x ∷ pieces) h = (front x (flatten pieces) h, NoDot-flatten pieces (back x _ h))
  where
    front : (x y : List ℕ) → NoDot (x ++ y) → NoDot x
    front [] y h = tt
    front (b ∷ x) y (h, hs) = (h, front x y hs)

    back : (x y : List ℕ) → NoDot (x ++ y) → NoDot y
    back [] y h = h
    back (b ∷ x) y (h, hs) = back x y hs

join_nothing : (pieces : List (List ℕ)) → join [] pieces ≡ flatten pieces
unfolding join flatten
join_nothing [] = refl
join_nothing (x ∷ []) = sym (append-nil x)
join_nothing (x ∷ y ∷ pieces) = ap (λ t. x ++ t) (join_nothing (y ∷ pieces))

-- The labels of a piece.
record HasLabels (piece : List ℕ) : Type 0 where
  first : List ℕ
  more : List (List ℕ)
  spelled : chunk_labels piece fragment_max_label_length ≡ join (b'.' ∷ []) (first ∷ more)
  whole : flatten (first ∷ more) ≡ piece
  filled : All (λ (x : List ℕ). 0 < length x) (first ∷ more)
  free : All NoDot (first ∷ more)

filled_pieces :
    (n : ℕ) (pieces : List (List ℕ))
    → All (IsPiece n) pieces
    → All (λ (x : List ℕ). 0 < length x) pieces
filled_pieces n [] h = tt
filled_pieces n (x ∷ pieces) (h, hs) = (h.0, filled_pieces n pieces hs)

labels_of :
    (piece : List ℕ) (pieces : List (List ℕ))
    → chunk_labels piece fragment_max_label_length ≡ join (b'.' ∷ []) pieces
    → flatten pieces ≡ piece
    → All (IsPiece fragment_max_label_length) pieces
    → 0 < length piece
    → NoDot piece
    → HasLabels piece
unfolding flatten
labels_of piece [] spelled whole pieces some_bytes nd = absurd (omega (arith, ap length whole))
labels_of piece (x ∷ pieces) spelled whole (h, hs) some_bytes nd = record {
  first = x;
  more = pieces;
  spelled = spelled;
  whole = whole;
  filled = (h.0, filled_pieces fragment_max_label_length pieces hs);
  free = NoDot-flatten (x ∷ pieces) (subst NoDot (sym whole) nd);
}

chunk_labels-HasLabels : (piece : List ℕ) → 0 < length piece → NoDot piece → HasLabels piece
chunk_labels-HasLabels piece h nd =
    elim (Bool-cases (leb (length piece) fragment_max_label_length)) [
      | inl short ↦
          labels_of piece (piece ∷ []) (unfold chunk_labels join in rw short refl)
            (unfold flatten in append-nil piece) ((h, ground arith), tt) h nd
      | inr long ↦
          let (joined, admitted) =
            flatten-split_encoded_pieces piece fragment_max_label_length (omega arith) in
          labels_of piece (split_encoded_pieces piece fragment_max_label_length)
            (unfold chunk_labels split_encoded_pieces in rw long refl) joined admitted h nd
    ]

-- The last label stands at the end.
last_label_of :
    (x : List ℕ) (xs : List (List ℕ))
    → All (λ (x : List ℕ). 0 < length x) (x ∷ xs)
    → All NoDot (x ∷ xs)
    → (front last : List ℕ) × (join (b'.' ∷ []) (x ∷ xs) ≡ front ++ last)
      × NoDot last
      × (0 < length last)
unfolding join
last_label_of x [] (h, _) (n, _) = ([], x, refl, n, h)
last_label_of x (y ∷ xs) (h, hs) (n, ns) =
    let (front, last, e, nd, filled) = last_label_of y xs hs ns in
    (
      x ++ (b'.' ∷ front),
      last,
      ap (λ t. x ++ (b'.' ∷ t)) e ∙ sym (append_assoc x (b'.' ∷ front) last),
      nd,
      filled,
    )

-- What the server has of a fragment behind the suffix and the passphrase.
abbrev pub fragment_label : List ℕ
fragment_label = b'n' ∷ []

unfoldable pub bare_fragment : List ℕ → List ℕ → List ℕ
bare_fragment nonce piece =
    (b'n' ∷ b'.' ∷ []) ++ (nonce ++ (b'.' ∷ chunk_labels piece fragment_max_label_length))

fragment_address_lem :
    (passphrase nonce piece suffix : List ℕ)
    → fragment_address passphrase nonce piece suffix
      ≡ with_suffix (auth_prefix_for passphrase ++ bare_fragment nonce piece) suffix
unfolding fragment_address bare_fragment
fragment_address_lem passphrase nonce piece suffix =
    rw (with_suffix_lem (auth_prefix_for passphrase ++ bare_fragment nonce piece) suffix)
      (simp append_assoc)

fragment_port_lem :
    (index count : ℕ)
    → index < count
    → count ≤ 16
    → (fragment_port index count / 2 ^ 8 ≡ index + 1) × (fragment_port index count % 2 ^ 8 ≡ count)
unfolding fragment_port
fragment_port_lem index count h k =
    let word = high_bit_or 8 (index + 1) count (omega arith) in
    (omega (arith, word), omega (arith, word))

split_bare_fragment :
    (nonce piece : List ℕ)
    → NoDot nonce
    → (ls : HasLabels piece)
    → split_dots (bare_fragment nonce piece) ≡ fragment_label ∷ nonce ∷ ls.first ∷ ls.more
unfolding bare_fragment
split_bare_fragment nonce piece nn ls =
    ap (λ t. split_dots ((b'n' ∷ b'.' ∷ []) ++ (nonce ++ (b'.' ∷ t)))) ls.spelled
    ∙ (unfold join in
        split_dots-join fragment_label (nonce ∷ ls.first ∷ ls.more) (ground arith, tt)
          (nn, ls.free))

bare_fragment-has_prefix :
    (nonce piece : List ℕ) → has_prefix (bare_fragment nonce piece) (b'n' ∷ b'.' ∷ []) ≡ true
unfolding bare_fragment
bare_fragment-has_prefix nonce piece = has_prefix_append (b'n' ∷ b'.' ∷ []) _

stripped :
    (passphrase nonce piece suffix front last : List ℕ)
    → chunk_labels piece fragment_max_label_length ≡ front ++ last
    → NoDot last
    → 0 < length last
    → strip_suffix
        (with_suffix (auth_prefix_for passphrase ++ bare_fragment nonce piece) suffix)
        suffix
      ≡ auth_prefix_for passphrase ++ bare_fragment nonce piece
unfolding bare_fragment
stripped passphrase nonce piece suffix front last ends nl filled =
    let prefix = auth_prefix_for passphrase ++ ((b'n' ∷ b'.' ∷ []) ++ (nonce ++ (b'.' ∷ front))) in
    let whole : auth_prefix_for passphrase ++ bare_fragment nonce piece ≡ prefix ++ last =
      rw ends (simp append_assoc) in
    rw whole (strip_suffix-with_suffix prefix last suffix nl filled)

-- The server takes the fragment out of the address and the port that the client makes: for a nonce
-- of four bytes and a piece that is not empty, both without a dot, and for an index, counted from 0,
-- below a count from 2 to 16, StripSuffix leaves what is behind the passphrase prefix, isFragmented
-- holds of it, and its nonce, its piece and, in the port, its index from 1 and its count come back.
pub fragment_parts-fragment_address :
    (passphrase nonce piece suffix : List ℕ) (index count : ℕ) (h : Handshake)
    → NoDot nonce
    → length nonce ≡ 4
    → NoDot piece
    → 0 < length piece
    → index < count
    → 2 ≤ count
    → count ≤ 16
    → h.server_port ≡ fragment_port index count
    → (strip_suffix (fragment_address passphrase nonce piece suffix) suffix
        ≡ auth_prefix_for passphrase ++ bare_fragment nonce piece)
      × (is_fragmented h (bare_fragment nonce piece) ≡ true)
      × (fragment_parts (split_dots (bare_fragment nonce piece)) ≡ some (nonce, piece))
      × (h.server_port / 2 ^ 8 ≡ index + 1)
      × (h.server_port % 2 ^ 8 ≡ count)
unfolding is_fragmented fragment_shape fragment_parts
fragment_parts-fragment_address passphrase nonce piece suffix index count h nn four np some_bytes lt
      low high port =
    let ls = chunk_labels-HasLabels piece some_bytes np in
    let (front, last, ends, nl, filled) = last_label_of ls.first ls.more ls.filled ls.free in
    let split = split_bare_fragment nonce piece nn ls in
    let (hi, lo) = fragment_port_lem index count lt high in
    let index_back : h.server_port / 2 ^ 8 ≡ index + 1 = ap (λ w. w / 2 ^ 8) port ∙ hi in
    let count_back : h.server_port % 2 ^ 8 ≡ count = ap (λ w. w % 2 ^ 8) port ∙ lo in
    (
      ap (λ t. strip_suffix t suffix) (fragment_address_lem passphrase nonce piece suffix)
          ∙ stripped passphrase nonce piece suffix front last (ls.spelled ∙ ends) nl filled,
      rw (split, index_back, count_back, bare_fragment-has_prefix nonce piece) (ground arith),
      rw split (ap (λ t. some (nonce, t)) (join_nothing (ls.first ∷ ls.more) ∙ ls.whole)),
      index_back,
      count_back,
    )
