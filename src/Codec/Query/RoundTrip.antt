-- ===== src/Codec/Query/RoundTrip.antt =====
-- internal/dnscodec/codec.go: DecodeQuery reads the question that EncodeQuery wrote.
use dns_over_minecraft.Prelude.{
  ℕ, ◌+◌, ◌*◌, ◌/◌, ◌%◌, ◌<◌, ◌≤◌, ◌≡◌, ◌≢◌, refl, ap, sym, ◌∙◌, arith, false, List, [], ◌∷◌, ◌++◌,
  Option, none, some, length, ok, ltb, bit_or, All, length-append, All-append, Bool-cases,
  Option-cases, inl, inr,
}
use dns_over_minecraft.Bytes.{IsByte, put_uvarint, put_uvarint_loop}
use dns_over_minecraft.Bytes.Uvarint.{read_uvarint-put, put_uvarint_loop-IsByte}
use dns_over_minecraft.Text.{join, split_dots, to_lower, trim_suffix, NoDot}
use dns_over_minecraft.Text.Dots.{remove_dots-NoDot, length-join_cons, split_dots_cons}
use dns_over_minecraft.Base32.{base32_encode}
use dns_over_minecraft.Base32.RoundTrip.{base32_decode-encode, base32_encode-NoDot}
use mathlib.Core.List.{append_assoc}
use dns_over_minecraft.Dns.{Question, Msg, DnsLibrary}
use dns_over_minecraft.Codec.Labels.{
  pack_label_list, pack_labels, IsLabel, unpack-pack_labels, pack_labels-IsByte,
}
use dns_over_minecraft.Codec.Tld.{tld_to_code, code_to_tld, code_to_tld-tld_to_code}
use dns_over_minecraft.Codec.Query.{
  any_bad_label, prefix_labels, last_label, name_wire, encode_edns_size, magic_bytes, query_wire,
  encode_labels, decode_header, last_byte, decode_name, decode_name_part, decode_wire, with_tld,
  encode_question, encode_query, decode_query, decoded_message, advertised_size, class_inet,
}

-- The name part ends with 0.
last_byte-append : (b : ℕ) (bs : List ℕ) (c : ℕ) → last_byte b (bs ++ (c ∷ [])) ≡ c
unfolding last_byte
last_byte-append b [] c = refl
last_byte-append b (x ∷ bs) c = last_byte-append x bs c

decode_name_part-pack_labels :
    (code : ℕ) (ls : List (List ℕ))
    → decode_name_part code (pack_labels ls) ≡ decode_name code (pack_labels ls)
unfolding decode_name_part pack_labels pack_label_list last_byte
decode_name_part-pack_labels code [] = refl
decode_name_part-pack_labels code (l ∷ ls) =
    rw (last_byte-append (length l % 256) (l ++ pack_label_list ls) 0)

prefix_labels-All :
    (x : List ℕ) (xs : List (List ℕ)) → All IsLabel (x ∷ xs) → All IsLabel (prefix_labels x xs)
unfolding prefix_labels
prefix_labels-All x [] h = tt
prefix_labels-All x (y ∷ ys) (h, hs) = (h, prefix_labels-All y ys hs)

with_tld_cons : (p t : List ℕ) → 0 < length p → with_tld p t ≡ p ++ (b'.' ∷ t)
unfolding with_tld
with_tld_cons p t h = ground arith

-- The labels of a name are those before the last, and the last.
join-prefix_last :
    (x : List ℕ) (xs : List (List ℕ))
    → All IsLabel (x ∷ xs)
    → with_tld (join (b'.' ∷ []) (prefix_labels x xs)) (last_label x xs) ≡ join (b'.' ∷ []) (x ∷ xs)
unfolding join prefix_labels last_label
join-prefix_last x [] h = unfold with_tld in refl
join-prefix_last x (y ∷ []) (hx, h) = with_tld_cons x y hx.0
join-prefix_last x (y ∷ (z ∷ zs)) (hx, (hy, h)) =
    let p = join (b'.' ∷ []) (y ∷ prefix_labels z zs) in
    let t = last_label z zs in
    let front = x ++ (b'.' ∷ p) in
    with_tld_cons front t (omega (arith, hx.0, length-append x (b'.' ∷ p)))
    ∙ append_assoc x (b'.' ∷ p) (b'.' ∷ t)
    ∙ ap (λ u. x ++ (b'.' ∷ u))
        (sym (with_tld_cons p t (omega (arith, hy.0, length-join_cons y (prefix_labels z zs))))
          ∙ join-prefix_last y (z ∷ zs) (hy, h))

length-pack_labels : (l : List ℕ) (ls : List (List ℕ)) → 1 < length (pack_labels (l ∷ ls))
unfolding pack_labels pack_label_list
length-pack_labels l ls = omega (arith, length-append (l ++ pack_label_list ls) (0 ∷ []))

decode_name_tld :
    (code : ℕ) (t : List ℕ) (ls : List (List ℕ))
    → All IsLabel ls
    → code ≢ 0
    → code_to_tld code ≡ some t
    → decode_name code (pack_labels ls) ≡ ok (with_tld (join (b'.' ∷ []) ls) t)
unfolding decode_name
decode_name_tld code t [] h k e = rw e (unfold pack_labels join in ground arith)
decode_name_tld code t (l ∷ ls) h k e =
    rw e (ground (arith, length-pack_labels l ls, unpack-pack_labels (l ∷ ls) h))

decode_name_raw :
    (ls : List (List ℕ))
    → All IsLabel ls
    → decode_name 0 (pack_labels ls) ≡ ok (join (b'.' ∷ []) ls)
unfolding decode_name
decode_name_raw ls h = rw (unpack-pack_labels ls h)

-- The name part leads back to the name, and its code is not a reserved one.
name_wire_lem :
    (x : List ℕ) (xs : List (List ℕ))
    → All IsLabel (x ∷ xs)
    → (decode_name_part (name_wire x xs).0 (name_wire x xs).1 ≡ ok (join (b'.' ∷ []) (x ∷ xs)))
      × ((name_wire x xs).0 < 100)
      × All IsByte (name_wire x xs).1
unfolding name_wire
name_wire_lem x xs h = elim (Option-cases (tld_to_code (last_label x xs))) [
  | inl e ↦
      rw (e, name_wire)
        (
          decode_name_part-pack_labels 0 (x ∷ xs) ∙ decode_name_raw (x ∷ xs) h,
          omega arith,
          pack_labels-IsByte (x ∷ xs) h,
        )
  | inr (code, e) ↦
      let (back, lo, hi) = code_to_tld-tld_to_code (last_label x xs) code e in
      let hp = prefix_labels-All x xs h in
      rw (e, name_wire)
        (
          decode_name_part-pack_labels code (prefix_labels x xs)
              ∙ decode_name_tld code (last_label x xs) (prefix_labels x xs) hp (omega arith) back
              ∙ ap ok (join-prefix_last x xs h),
          omega arith,
          pack_labels-IsByte (prefix_labels x xs) hp,
        )
]

-- The size that the server sees: none without EDNS.
abbrev pub seen_size : Option ℕ → ℕ
seen_size (some size) = encode_edns_size size * 256
seen_size none = 0

put_uvarint_cons : (v : ℕ) → (b : ℕ) × (bs : List ℕ) × (put_uvarint v ≡ b ∷ bs)
unfolding put_uvarint put_uvarint_loop
put_uvarint_cons v = elim (Bool-cases (ltb v 128)) [
  | inl small ↦ (v % 256, [], ground arith)
  | inr large ↦ (bit_or (v % 256) 0x80, put_uvarint_loop 9 (v / 128), rw large)
]

decode_header-magic :
    (edns : Option ℕ) (code b : ℕ) (bs : List ℕ)
    → decode_header (magic_bytes edns ++ (code ∷ b ∷ bs)) ≡ ok (seen_size edns, code, b ∷ bs)
unfolding decode_header magic_bytes
decode_header-magic none code b bs = refl
decode_header-magic (some size) code b bs = refl

decode_wire-query_wire :
    (edns : Option ℕ) (qtype : ℕ) (x : List ℕ) (xs : List (List ℕ))
    → qtype < 65536
    → All IsLabel (x ∷ xs)
    → decode_wire (query_wire edns qtype x xs)
      ≡ ok (seen_size edns, qtype, join (b'.' ∷ []) (x ∷ xs))
unfolding decode_wire query_wire
decode_wire-query_wire edns qtype x xs hq h =
    let (code, part) = name_wire x xs in
    let (named, small, _) = name_wire_lem x xs h in
    let (b, bs, cons) = put_uvarint_cons qtype in
    let payload : put_uvarint qtype ++ part ≡ b ∷ (bs ++ part) = ap (λ t. t ++ part) cons in
    ground (
      arith,
      payload,
      decode_header-magic edns code b (bs ++ part),
      read_uvarint-put qtype part (omega arith),
      named,
      small,
    )

magic_bytes-IsByte : (edns : Option ℕ) → All IsByte (magic_bytes edns)
unfolding magic_bytes encode_edns_size
magic_bytes-IsByte none = omega arith
magic_bytes-IsByte (some size) = omega arith

query_wire-IsByte :
    (edns : Option ℕ) (qtype : ℕ) (x : List ℕ) (xs : List (List ℕ))
    → All IsLabel (x ∷ xs)
    → All IsByte (query_wire edns qtype x xs)
unfolding query_wire put_uvarint
query_wire-IsByte edns qtype x xs h =
    let (_, small, bytes) = name_wire_lem x xs h in
    All-append IsByte (magic_bytes edns) _ (magic_bytes-IsByte edns) (
      omega arith,
      All-append IsByte (put_uvarint_loop 10 qtype) _ (put_uvarint_loop-IsByte 10 qtype) bytes,
    )

-- The labels of a name that DNS admits are no bad labels.
any_bad_label_none : (ls : List (List ℕ)) → All IsLabel ls → any_bad_label ls ≡ false
unfolding any_bad_label
any_bad_label_none [] h = refl
any_bad_label_none (l ∷ ls) (h, hs) = ground (arith, any_bad_label_none ls hs)

-- The name that a question asks for, in lower case and with no dot at its end.
abbrev pub asked_name : Question → List ℕ
asked_name question = to_lower (trim_suffix question.name (b'.' ∷ []))

module _ (dns : DnsLibrary) where
  decode_query-wire :
      (wire : List ℕ)
      → All IsByte wire
      → (edns_size qtype : ℕ) (name : List ℕ) → decode_wire wire ≡ ok (edns_size, qtype, name)
      → decode_query dns (to_lower (base32_encode wire)) []
        ≡ ok (decoded_message dns edns_size qtype name)
  unfolding decode_query
  decode_query-wire wire h edns_size qtype name e =
      rw
        (
          remove_dots-NoDot (to_lower (base32_encode wire)) (base32_encode-NoDot wire h),
          base32_decode-encode wire h,
          decode_query,
        )
        (ground (arith, e))

  encode_question_lem :
      (query : Msg) (question : Question) (more : List Question) (x : List ℕ) (xs : List (List ℕ))
      → question.qclass ≡ class_inet
      → All IsLabel (x ∷ xs)
      → split_dots (asked_name question) ≡ x ∷ xs
      → 0 < length (asked_name question)
      → encode_question dns query (question ∷ more)
        ≡ ok (to_lower (base32_encode (query_wire (advertised_size dns query) question.qtype x xs)))
  unfolding encode_question encode_labels
  encode_question_lem query question more x xs hc h parts nonempty =
      rw parts (ground (arith, any_bad_label_none (x ∷ xs) h))

  -- A query whose first question has class IN, a type of 16 bits and, in lower case, labels of 1
  -- to 63 bytes is encoded to a text without a dot, and DecodeQuery without a suffix rebuilds from
  -- the text the message that asks for the same name in lower case and the same type, with the
  -- EDNS size rounded as encodeEdnsSize does and none if the query has none.
  pub decode-encode_query :
      (query : Msg) (question : Question) (more : List Question)
      → query.question ≡ question ∷ more
      → question.qclass ≡ class_inet
      → question.qtype < 65536
      → All IsLabel (split_dots (asked_name question))
      → (text : List ℕ) × (encode_query dns query ≡ ok text)
        × NoDot text
        × (decode_query dns text []
            ≡ ok (
                decoded_message dns
                  (seen_size (advertised_size dns query))
                  question.qtype
                  (asked_name question)))
  unfolding encode_query
  decode-encode_query query question more eq hc ht labels =
      let edns = advertised_size dns query in
      let (x, xs, parts, joined) = split_dots_cons (asked_name question) in
      let h : All IsLabel (x ∷ xs) = rw parts at labels in
      let wire = query_wire edns question.qtype x xs in
      let bytes = query_wire-IsByte edns question.qtype x xs h in
      let nonempty : 0 < length (asked_name question) =
        omega (arith, h.0.0, length-join_cons x xs, ap length joined) in
      (
        to_lower (base32_encode wire),
        ap (encode_question dns query) eq
            ∙ encode_question_lem query question more x xs hc h parts nonempty,
        base32_encode-NoDot wire bytes,
        decode_query-wire wire bytes _ _ _ (
            decode_wire-query_wire edns question.qtype x xs ht h
            ∙ ap (λ t. ok (seen_size edns, question.qtype, t)) joined),
      )

-- For an advertised size of 16 bits, the EDNS size that the server sees is from 512 to 65280: it
-- is 512 if the client advertised less, and otherwise at most what the client advertised, and by
-- less than 256 below it.
pub seen_size_bounds :
    (size : ℕ)
    → size < 65536
    → (512 ≤ seen_size (some size))
      × (seen_size (some size) ≤ 65280)
      × (size < 512 → seen_size (some size) ≡ 512)
      × (512 ≤ size → (seen_size (some size) ≤ size) × (size < seen_size (some size) + 256))
unfolding encode_edns_size
seen_size_bounds size h = ground arith
