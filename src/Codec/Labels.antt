-- ===== src/Codec/Labels.antt =====
-- internal/dnscodec/codec.go: packLabels and unpackLabels, and that they are inverse.
use dns_over_minecraft.Prelude.{
  ℕ, zero, suc, ◌%◌, ◌<◌, ◌≤◌, ◌≡◌, ◌≢◌, refl, ap, sym, arith, List, [], ◌∷◌, ◌++◌, ltb, ◌==◌,
  if◌then◌else◌, length, take, drop, Result, ok, err, ◌>>=◌, All, length-append, take-length-append,
  drop-length-append, length-drop, All-append,
}
use dns_over_minecraft.Bytes.{IsByte}
use dns_over_minecraft.Text.{join}
use mathlib.Core.List.{append_assoc, append-nil}

pub data LabelError : Type 0 where
  empty_wire truncated_wire label_too_long label_overflow trailing_bytes out_of_fuel : LabelError

-- The loop of packLabels.
unfoldable pub pack_label_list : List (List ℕ) → List ℕ
pack_label_list [] = []
pack_label_list (label ∷ labels) = (length label % 256) ∷ (label ++ pack_label_list labels)

unfoldable pub pack_labels : List (List ℕ) → List ℕ
unfolding pack_label_list
pack_labels [] = 0 ∷ []
pack_labels (label ∷ labels) = pack_label_list (label ∷ labels) ++ (0 ∷ [])

-- The loop of unpackLabels: the wire from `position` on, and the labels so far. The result has the
-- wire behind the terminator. A round takes a byte at least, so a fuel above the length is enough.
unfoldable pub unpack_labels_loop :
    ℕ → List ℕ → List (List ℕ) → Result LabelError (List (List ℕ) × List ℕ)
unpack_labels_loop zero wire labels = err out_of_fuel
unpack_labels_loop (suc fuel) [] labels = err truncated_wire
unpack_labels_loop (suc fuel) (n ∷ wire) labels =
    let more = unpack_labels_loop fuel (drop n wire) (labels ++ (take n wire ∷ [])) in
    if n == 0
    then ok (labels, wire)
    else if ltb 63 n
    then err label_too_long
    else if ltb (length wire) n
    then err label_overflow
    else more

unfoldable pub unpack_labels : List ℕ → Result LabelError (List ℕ)
unfolding unpack_labels_loop
unpack_labels [] = err empty_wire
unpack_labels (b ∷ bs) = do
  (labels, rest) ← unpack_labels_loop (suc (length (b ∷ bs))) (b ∷ bs) []
  if length rest == 0 then ok (join (b'.' ∷ []) labels) else err trailing_bytes

-- A label that the wire format admits.
abbrev pub IsLabel : List ℕ → Type 0
IsLabel label = (0 < length label) × (length label ≤ 63) × All IsByte label

unpack_labels_loop-pack :
    (ls : List (List ℕ)) (done : List (List ℕ)) (fuel : ℕ) (rest : List ℕ)
    → All IsLabel ls
    → length (pack_label_list ls) < fuel
    → unpack_labels_loop fuel (pack_label_list ls ++ (0 ∷ rest)) done ≡ ok (done ++ ls, rest)
unfolding unpack_labels_loop pack_label_list
unpack_labels_loop-pack ls done zero rest h hf = absurd (omega arith)
unpack_labels_loop-pack [] done (suc fuel) rest h hf =
    ap (λ t. ok (t, rest)) (sym (append-nil done))
unpack_labels_loop-pack (l ∷ ls) done (suc fuel) rest (h, hs) hf =
    let body = pack_label_list ls ++ (0 ∷ rest) in
    let m : length l % 256 ≡ length l = omega arith in
    rw
      (
        m,
        append_assoc l (pack_label_list ls) (0 ∷ rest),
        take-length-append l body,
        drop-length-append l body,
      )
      (ground (
        arith,
        length-append l body,
        length-append l (pack_label_list ls),
        append_assoc done (l ∷ []) ls,
        unpack_labels_loop-pack ls (done ++ (l ∷ [])) fuel rest hs
            (omega (arith, length-append l (pack_label_list ls))),
      ))

-- Labels of 1 to 63 bytes are packed and unpacked to the same labels, joined by dots.
pub unpack-pack_labels :
    (ls : List (List ℕ))
    → All IsLabel ls
    → unpack_labels (pack_labels ls) ≡ ok (join (b'.' ∷ []) ls)
unfolding unpack_labels pack_labels
unpack-pack_labels [] h = refl
unpack-pack_labels (l ∷ ls) h =
    let wire = pack_label_list (l ∷ ls) in
    rw (
      unpack_labels_loop-pack (l ∷ ls) [] (suc (length (wire ++ (0 ∷ [])))) [] h
        (omega (arith, length-append wire (0 ∷ []))))

pack_label_list-IsByte : (ls : List (List ℕ)) → All IsLabel ls → All IsByte (pack_label_list ls)
unfolding pack_label_list
pack_label_list-IsByte [] h = tt
pack_label_list-IsByte (l ∷ ls) (h, hs) =
    (omega arith, All-append IsByte l (pack_label_list ls) h.2 (pack_label_list-IsByte ls hs))

pub pack_labels-IsByte : (ls : List (List ℕ)) → All IsLabel ls → All IsByte (pack_labels ls)
unfolding pack_labels
pack_labels-IsByte [] h = omega arith
pack_labels-IsByte (l ∷ ls) h =
    All-append IsByte (pack_label_list (l ∷ ls)) (0 ∷ []) (pack_label_list-IsByte (l ∷ ls) h)
      (omega arith)

unpack_labels_loop_ends :
    (fuel : ℕ) (wire : List ℕ) (labels : List (List ℕ))
    → length wire < fuel
    → unpack_labels_loop fuel wire labels ≢ err out_of_fuel
unfolding unpack_labels_loop
unpack_labels_loop_ends zero wire labels h = absurd (omega arith)
unpack_labels_loop_ends (suc fuel) [] labels h = λ e. cc
unpack_labels_loop_ends (suc fuel) (n ∷ wire) labels h = ground (
  arith,
  length-drop n wire,
  unpack_labels_loop_ends fuel (drop n wire) (labels ++ (take n wire ∷ [])),
)

-- The loop of unpackLabels ends on every wire: the fuel never runs out.
pub unpack_labels_ends : (wire : List ℕ) → unpack_labels wire ≢ err out_of_fuel
unfolding unpack_labels
unpack_labels_ends [] = λ e. cc
unpack_labels_ends (b ∷ bs) =
    ground (arith, unpack_labels_loop_ends (suc (length (b ∷ bs))) (b ∷ bs) [])
