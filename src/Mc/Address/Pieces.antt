-- ===== src/Mc/Address/Pieces.antt =====
-- internal/mc/client.go: splitEncodedPieces cuts a query into pieces of at most the length, which
-- join to the query.
use dns_over_minecraft.Prelude.{
  ℕ, zero, suc, ◌<◌, ◌≤◌, ◌≡◌, refl, ap, ◌∙◌, arith, false, List, [], ◌∷◌, ◌++◌, length, take, drop,
  ltb, ◌==◌, if◌then◌else◌, Bool-cases, inl, inr, All, length-take_le, length-drop,
  take-append-drop,
}
use dns_over_minecraft.Mc.Address.{pieces_loop, split_encoded_pieces}
use mathlib.Core.List.{flatten, append-nil}

abbrev pub IsPiece : ℕ → List ℕ → Type 0
IsPiece max_length piece = (0 < length piece) × (length piece ≤ max_length)

pieces_loop_short :
    (text : List ℕ) (n : ℕ)
    → length text ≤ n
    → (flatten (if length text == 0 then [] else text ∷ []) ≡ text)
      × All (IsPiece n) (if length text == 0 then [] else text ∷ [])
unfolding flatten
pieces_loop_short [] n h = (refl, tt)
pieces_loop_short (b ∷ text) n h =
    let filled : (length (b ∷ text) == 0) ≡ false = ground arith in
    rw filled (append-nil (b ∷ text), ((omega arith, h), tt))

pieces_loop_lem :
    (fuel : ℕ) (text : List ℕ) (max_length : ℕ)
    → 0 < max_length
    → length text < fuel
    → (flatten (pieces_loop fuel text max_length) ≡ text)
      × All (IsPiece max_length) (pieces_loop fuel text max_length)
unfolding pieces_loop flatten
pieces_loop_lem zero text n h k = absurd (omega arith)
pieces_loop_lem (suc fuel) text n h k = elim (Bool-cases (ltb n (length text))) [
  | inl long ↦
      let (joined, admitted) =
        pieces_loop_lem fuel (drop n text) n h (ground (arith, length-drop n text, long)) in
      let size : length (take n text) ≡ n = length-take_le n text (ground (arith, long)) in
      rw (long, pieces_loop)
        (
          ap (λ t. take n text ++ t) joined ∙ take-append-drop n text,
          ((omega arith, omega arith), admitted),
        )
  | inr short ↦ rw (short, pieces_loop) (pieces_loop_short text n (ground (arith, short)))
]

-- For a positive length, the pieces of a query are not empty and not longer than the length, and
-- they join to the query.
pub flatten-split_encoded_pieces :
    (text : List ℕ) (max_length : ℕ)
    → 0 < max_length
    → (flatten (split_encoded_pieces text max_length) ≡ text)
      × All (IsPiece max_length) (split_encoded_pieces text max_length)
unfolding split_encoded_pieces
flatten-split_encoded_pieces text n h = pieces_loop_lem (suc (length text)) text n h (omega arith)
