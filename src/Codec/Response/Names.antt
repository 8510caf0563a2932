-- ===== src/Codec/Response/Names.antt =====
-- internal/dnscodec/codec.go: readName reads the name that encodeName wrote, with the same table.
use dns_over_minecraft.Prelude.{
  ℕ, zero, suc, ◌+◌, ◌%◌, ◌^◌, ◌<◌, ◌≤◌, ◌≡◌, refl, ap, sym, ◌∙◌, arith, List, [], ◌∷◌, ◌++◌, some,
  length, get_elem?, bytes_eq, bytes_eq_iff, ok, All, length-append, take-length-append,
  drop-length-append, Bool-cases, Option-cases, inl, inr,
}
use dns_over_minecraft.Bytes.{read_byte}
use dns_over_minecraft.Bytes.Uvarint.{read_uvarint-put}
use dns_over_minecraft.Codec.Labels.{IsLabel, pack_label_list}
use dns_over_minecraft.Codec.Response.{
  find_index, encode_name, read_wire_name_loop, read_wire_name, by_token, table_name, read_name,
}
use mathlib.Core.List.{append_assoc}

-- A domain name in wire format: labels of 1 to 63 bytes and a terminator, 255 bytes at most.
pub record IsWireName (wire : List ℕ) : Type 0 where
  pub labels : List (List ℕ)
  pub admitted : All IsLabel labels
  pub spelled : wire ≡ pack_label_list labels ++ (0 ∷ [])
  pub short : length wire ≤ 255

read_wire_name_loop-pack :
    (ls : List (List ℕ)) (wire rest : List ℕ) (fuel : ℕ)
    → All IsLabel ls
    → length (pack_label_list ls) < fuel
    → read_wire_name_loop fuel wire (pack_label_list ls ++ (0 ∷ rest))
      ≡ ok (wire ++ (pack_label_list ls ++ (0 ∷ [])), rest)
unfolding read_wire_name_loop pack_label_list
read_wire_name_loop-pack ls wire rest zero h hf = absurd (omega arith)
read_wire_name_loop-pack [] wire rest (suc fuel) h hf = refl
read_wire_name_loop-pack (l ∷ ls) wire rest (suc fuel) (h, hs) hf =
    let body = pack_label_list ls ++ (0 ∷ rest) in
    let m : length l % 256 ≡ length l = omega arith in
    rw
      (
        m,
        append_assoc l (pack_label_list ls) (0 ∷ rest),
        take-length-append l body,
        drop-length-append l body,
      )
      (ground (
        arith,
        length-append l body,
        length-append l (pack_label_list ls),
        regroup,
        read_wire_name_loop-pack ls ((wire ++ (length l ∷ [])) ++ l) rest fuel hs
            (omega (arith, length-append l (pack_label_list ls))),
      ))
  where
    regroup :
        ((wire ++ (length l ∷ [])) ++ l) ++ (pack_label_list ls ++ (0 ∷ []))
        ≡ wire ++ ((length l ∷ (l ++ pack_label_list ls)) ++ (0 ∷ []))
    regroup = simp append_assoc

read_wire_name_loop_lem :
    (wire rest : List ℕ) (fuel : ℕ)
    → IsWireName wire
    → length wire ≤ fuel
    → read_wire_name_loop fuel [] (wire ++ rest) ≡ ok (wire, rest)
read_wire_name_loop_lem wire rest fuel w h =
    let p = pack_label_list w.labels in
    ap (λ t. read_wire_name_loop fuel [] (t ++ rest)) w.spelled
    ∙ ap (read_wire_name_loop fuel []) (append_assoc p (0 ∷ []) rest)
    ∙ read_wire_name_loop-pack w.labels [] rest fuel w.admitted
        (omega (arith, h, ap length w.spelled, length-append p (0 ∷ [])))
    ∙ ap (λ t. ok (t, rest)) (sym w.spelled)

pub read_wire_name_lem :
    (wire rest : List ℕ) → IsWireName wire → read_wire_name (wire ++ rest) ≡ ok (wire, rest)
unfolding read_wire_name
read_wire_name_lem wire rest w =
    let n = length (wire ++ rest) in
    rw (read_wire_name_loop_lem wire rest (suc n) w (omega (arith, length-append wire rest)))
      (ground (arith, w.short))

-- A name that the table holds is found at an index within it.
find_index-get_elem :
    (index : ℕ) (table : List (List ℕ)) (name : List ℕ) (i : ℕ)
    → find_index index table name ≡ some i
    → (j : ℕ) × (i ≡ index + j) × (j < length table) × (get_elem? table j ≡ some name)
unfolding find_index
find_index-get_elem index [] name i e = cc
find_index-get_elem index (known ∷ table) name i e = elim (Bool-cases (bytes_eq known name)) [
  | inl same ↦ (0, ground arith, ground arith, ground (arith, bytes_eq_iff known name))
  | inr other ↦
      let (j, at, small, found) = find_index-get_elem (index + 1) table name i (ground arith) in
      (suc j, omega arith, omega arith, found)
]

-- For a name in wire format and a table of fewer than 2 ^ 64 names, readName takes the name back
-- from what encodeName wrote, leaves what follows, and its table grows alike.
pub read_name-encode_name :
    (qname previous : List ℕ) (table : List (List ℕ)) (name rest : List ℕ)
    → IsWireName name
    → length table < 2 ^ 64
    → read_name qname previous table ((encode_name qname previous table name).0 ++ rest)
      ≡ ok (name, (encode_name qname previous table name).1, rest)
unfolding read_name by_token table_name encode_name read_byte
read_name-encode_name qname previous table name rest w small =
    elim (Option-cases (find_index 0 table name)) [
      | inl new ↦ ground (
        arith,
        new,
        bytes_eq_iff name qname,
        bytes_eq_iff name previous,
        read_wire_name_lem name rest w,
      )
      | inr (i, known) ↦
          let (j, at, below, found) = find_index-get_elem 0 table name i known in
          let e : i ≡ j = omega arith in
          let found' : get_elem? table i ≡ some name = rw e found in
          ground (
            arith,
            known,
            found',
            bytes_eq_iff name qname,
            bytes_eq_iff name previous,
            read_uvarint-put i rest (omega arith),
          )
    ]

-- A name costs the table one entry at most.
pub length-encode_name :
    (qname previous : List ℕ) (table : List (List ℕ)) (name : List ℕ)
    → length (encode_name qname previous table name).1 ≤ length table + 1
unfolding encode_name
length-encode_name qname previous table name = elim (Option-cases (find_index 0 table name)) [
  | inl new ↦ ground (arith, new, length-append table (name ∷ []))
  | inr (i, known) ↦ ground (arith, known)
]
