-- ===== src/Mc/Fragment/Assembly.antt =====
-- internal/mc/fragment.go: the pieces of a query are assembled exactly once, and into the query.
use dns_over_minecraft.Prelude.{
  ℕ, suc, ◌+◌, ◌-◌, ◌≤◌, ◌<◌, ◌≡◌, refl, ap, sym, ◌∙◌, arith, true, false, ◌||◌, ◌⊎◌, List, [], ◌∷◌,
  map, ◌==◌, if◌then◌else◌, length, length-map, All, Bool-cases, inl, inr,
}
use dns_over_minecraft.Mc.Fragment.{
  FragmentSet, empty_set, put_piece, piece_at, add_piece, reassemble_from, reassemble,
}
use dns_over_minecraft.Mc.Fragment.Indices.{
  elem, DistinctIndices, InRange, length-le-total, every_index, total-le-length,
}
use mathlib.Core.List.{flatten}

-- The piece with an index from 1 on.
pub piece_of : List (List ℕ) → ℕ → List ℕ
piece_of [] i = []
piece_of (p ∷ ps) i = if i == 1 then p else piece_of ps (i - 1)

-- The queries that are assembled when pieces arrive in the order of these indices.
pub assembled : List (List ℕ) → FragmentSet → List ℕ → List (List ℕ)
assembled ps s [] = []
assembled ps s (i ∷ indices) =
    let (s', completer) = add_piece s i (length ps) (piece_of ps i) in
    let rest = assembled ps s' indices in if completer then reassemble s' ∷ rest else rest

abbrev indices_of : List (ℕ × List ℕ) → List ℕ
indices_of = map (λ e. e.0)

abbrev Genuine : List (List ℕ) → ℕ × List ℕ → Type 0
Genuine ps (i, p) = p ≡ piece_of ps i

elem-put_piece :
    (i j : ℕ) (p : List ℕ) (pieces : List (ℕ × List ℕ))
    → elem j (indices_of (put_piece i p pieces)) ≡ ((i == j) || elem j (indices_of pieces))
unfolding elem put_piece
elem-put_piece i j p [] = refl
elem-put_piece i j p ((k, q) ∷ pieces) = ground (arith, elem-put_piece i j p pieces)

length-put_piece :
    (i : ℕ) (p : List ℕ) (pieces : List (ℕ × List ℕ))
    → length (put_piece i p pieces)
      ≡ (if elem i (indices_of pieces) then length pieces else suc (length pieces))
unfolding elem put_piece
length-put_piece i p [] = refl
length-put_piece i p ((k, q) ∷ pieces) = ground (arith, length-put_piece i p pieces)

put_piece-Distinct :
    (i : ℕ) (p : List ℕ) (pieces : List (ℕ × List ℕ))
    → DistinctIndices (indices_of pieces)
    → DistinctIndices (indices_of (put_piece i p pieces))
unfolding put_piece
put_piece-Distinct i p [] d = (unfold elem in refl, tt)
put_piece-Distinct i p ((k, q) ∷ pieces) (d, ds) = elim (Bool-cases (k == i)) [
  | inl e ↦ rw e (ground (arith, d), ds)
  | inr e ↦ rw e (ground (arith, d, elem-put_piece i k p pieces), put_piece-Distinct i p pieces ds)
]

put_piece-InRange :
    (n i : ℕ) (p : List ℕ) (pieces : List (ℕ × List ℕ))
    → InRange n i
    → All (InRange n) (indices_of pieces)
    → All (InRange n) (indices_of (put_piece i p pieces))
unfolding put_piece
put_piece-InRange n i p [] r h = (r, tt)
put_piece-InRange n i p ((k, q) ∷ pieces) r (h, hs) = elim (Bool-cases (k == i)) [
  | inl e ↦ rw e (r, hs)
  | inr e ↦ rw e (h, put_piece-InRange n i p pieces r hs)
]

put_piece-Genuine :
    (ps : List (List ℕ)) (i : ℕ) (pieces : List (ℕ × List ℕ))
    → All (Genuine ps) pieces
    → All (Genuine ps) (put_piece i (piece_of ps i) pieces)
unfolding put_piece
put_piece-Genuine ps i [] h = (refl, tt)
put_piece-Genuine ps i ((k, q) ∷ pieces) (h, hs) = elim (Bool-cases (k == i)) [
  | inl e ↦ rw e (refl, hs)
  | inr e ↦ rw e (h, put_piece-Genuine ps i pieces hs)
]

piece_at-Genuine :
    (ps : List (List ℕ)) (i : ℕ) (pieces : List (ℕ × List ℕ))
    → All (Genuine ps) pieces
    → elem i (indices_of pieces) ≡ true
    → piece_at i pieces ≡ piece_of ps i
unfolding piece_at elem
piece_at-Genuine ps i [] h e = cc
piece_at-Genuine ps i ((k, q) ∷ pieces) (h, hs) e = elim (Bool-cases (k == i)) [
  | inl same ↦ rw same (h ∙ ap (piece_of ps) (ground arith))
  | inr other ↦ rw other (piece_at-Genuine ps i pieces hs (ground arith))
]

piece_of_later :
    (q : List ℕ) (qs : List (List ℕ)) (j : ℕ) → 1 ≤ j → piece_of (q ∷ qs) (1 + j) ≡ piece_of qs j
unfolding piece_of
piece_of_later q qs j r =
    let other : ((1 + j) == 1) ≡ false = ground arith in rw other (ap (piece_of qs) (omega arith))

-- With every piece there, the loop of reassemble writes them one after the other.
reassemble_from-flatten :
    (ps qs : List (List ℕ)) (k : ℕ) (pieces : List (ℕ × List ℕ))
    → ((j : ℕ) → 1 ≤ j → piece_of ps (k + j) ≡ piece_of qs j)
    → ((i : ℕ) → InRange (k + length qs) i → elem i (indices_of pieces) ≡ true)
    → All (Genuine ps) pieces
    → reassemble_from (length qs) (k + 1) pieces ≡ flatten qs
unfolding reassemble_from flatten
reassemble_from-flatten ps [] k pieces same there h = refl
reassemble_from-flatten ps (q ∷ qs) k pieces same there h =
    let first : piece_at (k + 1) pieces ≡ q =
      piece_at-Genuine ps (k + 1) pieces h (there (k + 1) (omega arith))
      ∙ same 1 (omega arith)
      ∙ unfold piece_of in refl in
    let rest =
      reassemble_from-flatten ps qs (k + 1) pieces
        (λ j r.
          ap (piece_of ps) (omega arith) ∙ same (1 + j) (omega arith) ∙ piece_of_later q qs j r)
        (λ i r. there i (omega (arith, r.0, r.1))) h in
    cc (first, rest)

-- A set that waits for pieces of a query.
record Waits (ps : List (List ℕ)) (s : FragmentSet) : Type 0 where
  known_total : (s.total ≡ 0) ⊎ (s.total ≡ length ps)
  genuine : All (Genuine ps) s.pieces
  in_range : All (InRange (length ps)) (indices_of s.pieces)
  distinct : DistinctIndices (indices_of s.pieces)
  not_started : s.started ≡ false
  not_done : s.done ≡ false
  short : length s.pieces < length ps

add_started :
    (s : FragmentSet) (i n : ℕ) (p : List ℕ)
    → s.started ≡ true
    → ((add_piece s i n p).1 ≡ false) × ((add_piece s i n p).0.started ≡ true)
unfolding add_piece
add_started s i n p h = ground arith

-- A set that has been completed completes no more.
assembled_started :
    (ps : List (List ℕ)) (s : FragmentSet) (indices : List ℕ)
    → s.started ≡ true
    → assembled ps s indices ≡ []
unfolding assembled
assembled_started ps s [] h = refl
assembled_started ps s (i ∷ indices) h =
    let (no_more, still) = add_started s i (length ps) (piece_of ps i) h in
    rw no_more (assembled_started ps (add_piece s i (length ps) (piece_of ps i)).0 indices still)

-- One more piece: the set is complete and reassembles to the query, or it waits on.
record Complete (ps : List (List ℕ)) (s : FragmentSet) (i : ℕ) : Type 0 where
  completer : (add_piece s i (length ps) (piece_of ps i)).1 ≡ true
  begun : (add_piece s i (length ps) (piece_of ps i)).0.started ≡ true
  query : reassemble (add_piece s i (length ps) (piece_of ps i)).0 ≡ flatten ps
  everything : (j : ℕ) → InRange (length ps) j → ((i == j) || elem j (indices_of s.pieces)) ≡ true

record WaitsOn (ps : List (List ℕ)) (s : FragmentSet) (i : ℕ) : Type 0 where
  no_completer : (add_piece s i (length ps) (piece_of ps i)).1 ≡ false
  waits : Waits ps (add_piece s i (length ps) (piece_of ps i)).0
  grown :
      (j : ℕ)
      → elem j (indices_of (add_piece s i (length ps) (piece_of ps i)).0.pieces)
        ≡ ((i == j) || elem j (indices_of s.pieces))

add_piece_step :
    (ps : List (List ℕ)) (s : FragmentSet) (i : ℕ)
    → Waits ps s
    → InRange (length ps) i
    → Complete ps s i ⊎ WaitsOn ps s i
unfolding add_piece reassemble
add_piece_step ps s i w r =
    let n = length ps in
    let pieces' = put_piece i (piece_of ps i) s.pieces in
    let total' : ℕ = if s.total == 0 then n else s.total in
    let total_lem : total' ≡ n = ground (arith, w.known_total) in
    let genuine' = put_piece-Genuine ps i s.pieces w.genuine in
    let in_range' = put_piece-InRange n i (piece_of ps i) s.pieces r w.in_range in
    let distinct' = put_piece-Distinct i (piece_of ps i) s.pieces w.distinct in
    let grown' = λ (j : ℕ). elem-put_piece i j (piece_of ps i) s.pieces in
    let count : length (indices_of pieces') ≡ length pieces' = length-map pieces' (λ e. e.0) in
    elim (Bool-cases (length pieces' == total')) [
      | inl full ↦
          let full' : length (indices_of pieces') ≡ n = ground arith in
          let there = λ (j : ℕ) (q : InRange n j).
            every_index n j (indices_of pieces') in_range' distinct' full' q in
          inl (record {
            completer = ground (arith, w.not_started, w.not_done, full);
            begun = ground (arith, w.not_started, w.not_done, full);
            query =
                ap (λ (t : ℕ). reassemble_from t 1 pieces') total_lem
                ∙ reassemble_from-flatten ps ps 0 pieces' (λ j q. ap (piece_of ps) (omega arith))
                    (λ j q. there j (omega (arith, q.0, q.1))) genuine';
            everything = λ j q. sym (grown' j) ∙ there j q;
          })
      | inr more ↦ inr (record {
        no_completer = ground (arith, w.not_started, w.not_done, more);
        waits = record {
          known_total = inr total_lem;
          genuine = genuine';
          in_range = in_range';
          distinct = distinct';
          not_started = ground (arith, w.not_started, w.not_done, more);
          not_done = w.not_done;
          short = ground (arith, length-le-total n (indices_of pieces') in_range' distinct');
        };
        grown = grown';
      })
    ]

-- Pieces in any order and with any repetition, to a set that waits.
assembled-Waits :
    (ps : List (List ℕ)) (s : FragmentSet) (indices : List ℕ)
    → Waits ps s
    → All (InRange (length ps)) indices
    → ((j : ℕ) → InRange (length ps) j → (elem j (indices_of s.pieces) || elem j indices) ≡ true)
    → assembled ps s indices ≡ flatten ps ∷ []
unfolding assembled elem
assembled-Waits ps s [] w h all = absurd (
    omega (
      arith,
      w.short,
      length-map s.pieces (λ (e : ℕ × List ℕ). e.0),
      total-le-length (length ps) (indices_of s.pieces) (λ j r. ground (arith, all j r)),
    ))
assembled-Waits ps s (i ∷ indices) w (r, h) all =
    let s' = (add_piece s i (length ps) (piece_of ps i)).0 in
    elim (add_piece_step ps s i w r) [
      | inl done ↦ rw done.completer (
          ap (λ q. q ∷ assembled ps s' indices) done.query
          ∙ ap (λ t. flatten ps ∷ t) (assembled_started ps s' indices done.begun))
      | inr more ↦ rw more.no_completer (
          assembled-Waits ps s' indices more.waits h (λ j q. ground (arith, more.grown j, all j q)))
    ]

Waits-empty : (p : List ℕ) (ps : List (List ℕ)) → Waits (p ∷ ps) empty_set
Waits-empty p ps = record {
  known_total = inl refl;
  genuine = tt;
  in_range = tt;
  distinct = tt;
  not_started = refl;
  not_done = refl;
  short = omega arith;
}

-- Pieces of a query that arrive in any order and with any repetition, each of its indices among
-- them and no other, are assembled exactly once, and into the whole query.
pub assembled_once :
    (p : List ℕ) (ps : List (List ℕ)) (indices : List ℕ)
    → All (InRange (length (p ∷ ps))) indices
    → ((j : ℕ) → InRange (length (p ∷ ps)) j → elem j indices ≡ true)
    → assembled (p ∷ ps) empty_set indices ≡ flatten (p ∷ ps) ∷ []
unfolding elem
assembled_once p ps indices h all =
    assembled-Waits (p ∷ ps) empty_set indices (Waits-empty p ps) h all

-- While a piece is missing nothing is assembled.
assembled_missing_from :
    (ps : List (List ℕ)) (s : FragmentSet) (indices : List ℕ) (j : ℕ)
    → Waits ps s
    → All (InRange (length ps)) indices
    → InRange (length ps) j
    → elem j (indices_of s.pieces) ≡ false
    → elem j indices ≡ false
    → assembled ps s indices ≡ []
unfolding assembled elem
assembled_missing_from ps s [] j w h q absent missing = refl
assembled_missing_from ps s (i ∷ indices) j w (r, h) q absent missing =
    elim (add_piece_step ps s i w r) [
      | inl done ↦ absurd (ground (arith, done.everything j q))
      | inr more ↦ rw more.no_completer (
          assembled_missing_from ps (add_piece s i (length ps) (piece_of ps i)).0 indices j
            more.waits h q (ground (arith, more.grown j)) (ground arith))
    ]

-- While a piece of the query has not arrived, pieces of it that arrive in any order and with any
-- repetition are not assembled.
pub assembled_missing :
    (p : List ℕ) (ps : List (List ℕ)) (indices : List ℕ) (j : ℕ)
    → All (InRange (length (p ∷ ps))) indices
    → InRange (length (p ∷ ps)) j
    → elem j indices ≡ false
    → assembled (p ∷ ps) empty_set indices ≡ []
unfolding elem
assembled_missing p ps indices j h q missing =
    assembled_missing_from (p ∷ ps) empty_set indices j (Waits-empty p ps) h q refl missing
