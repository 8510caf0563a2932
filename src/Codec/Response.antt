-- ===== src/Codec/Response.antt =====
-- internal/dnscodec/codec.go: packCompactResponse and unpackCompactResponse, the payload of the
-- favicon, with the names, flags and records that they are made of.
pub mod Names
pub mod Flags
pub mod RoundTrip
use dns_over_minecraft.Prelude.{
  ℕ, zero, suc, ◌+◌, ◌%◌, Bool, true, false, ◌&&◌, not, List, [], ◌∷◌, ◌++◌, ltb, leb, ◌==◌,
  if◌then◌else◌, Option, none, some, length, take, drop, get_elem?, bytes_eq, Result, ok, err,
  ◌>>=◌, bit_and, bit_or,
}
use dns_over_minecraft.Bytes.{
  IoError, read_byte, read_full, put_uvarint, read_uvarint, put_uint16, put_uint32,
}
use dns_over_minecraft.Dns.{Question, Rr, Msg, DnsLibrary}

pub data ResponseError : Type 0 where
  io : IoError → ResponseError
  pack_failed bad_magic qname_token_early prev_token_early index_out_of_range : ResponseError
  unknown_token label_too_long label_overflow name_too_long rdlength_exceeds : ResponseError
  unpack_failed out_of_fuel nil_response empty_response bad_base64 : ResponseError

abbrev pub lift {ℓ} : {A : Type ℓ} → Result IoError A → Result ResponseError A
lift (ok a) = ok a
lift (err e) = err (io e)

abbrev pub packed {ℓ} : {A : Type ℓ} → Option A → Result ResponseError A
packed (some a) = ok a
packed none = err pack_failed

abbrev pub response_magic : ℕ
response_magic = 0xd1

-- packFlags and unpackFlags.
unfoldable pub set_flag : Bool → ℕ → ℕ → ℕ
set_flag set bits flags = if set then bit_or flags bits else flags

unfoldable pub pack_flags : Msg → ℕ
unfolding set_flag
pack_flags m = set_flag m.checking_disabled 32 (
    set_flag m.authenticated_data 16 (
      set_flag m.truncated 8 (
        set_flag m.recursion_desired 4
          (set_flag m.recursion_available 2 (set_flag m.authoritative 1 0)))))

unfoldable pub unpack_flags : ℕ → ℕ → ℕ
unfolding set_flag
unpack_flags flags rcode =
    let has = λ (bit : ℕ). not (bit_and flags bit == 0) in
    bit_or
      (set_flag (has 32) 0x0010 (
        set_flag (has 16) 0x0020 (
          set_flag (has 8) 0x0200
            (set_flag (has 4) 0x0100 (set_flag (has 2) 0x0080 (set_flag (has 1) 0x0400 0x8000))))))
      (rcode % 16)

-- The loop over the name table in `encodeName`: the first index of a name.
unfoldable pub find_index : ℕ → List (List ℕ) → List ℕ → Option ℕ
unfolding bytes_eq
find_index index [] name = none
find_index index (known ∷ table) name =
    if bytes_eq known name then some index else find_index (index + 1) table name

-- `encodeName`: what is written, and the name table after it.
unfoldable pub encode_name : List ℕ → List ℕ → List (List ℕ) → List ℕ → List ℕ × List (List ℕ)
unfolding find_index
encode_name qname previous table name =
    if ltb 0 (length qname) && bytes_eq name qname
    then (0 ∷ [], table)
    else if ltb 0 (length previous) && bytes_eq name previous
    then (1 ∷ [], table)
    else elim (find_index 0 table name) [
      | some index ↦ (2 ∷ put_uvarint index, table)
      | none ↦ (3 ∷ name, table ++ (name ∷ []))
    ]

-- `readWireNameBytes`: the name so far, and the reader. A round takes a byte at least.
unfoldable pub read_wire_name_loop : ℕ → List ℕ → List ℕ → Result ResponseError (List ℕ × List ℕ)
read_wire_name_loop zero wire src = err out_of_fuel
read_wire_name_loop (suc fuel) wire [] = err (io IoError.eof)
read_wire_name_loop (suc fuel) wire (n ∷ src) =
    let more = read_wire_name_loop fuel ((wire ++ (n ∷ [])) ++ take n src) (drop n src) in
    if n == 0
    then ok (wire ++ (n ∷ []), src)
    else if ltb 63 n
    then err label_too_long
    else if ltb (length src) n
    then err label_overflow
    else more

unfoldable pub read_wire_name : List ℕ → Result ResponseError (List ℕ × List ℕ)
unfolding read_wire_name_loop
read_wire_name src = do
  (wire, rest) ← read_wire_name_loop (suc (length src)) [] src
  if ltb 255 (length wire) then err name_too_long else ok (wire, rest)

unfoldable pub table_name :
    List (List ℕ) → List ℕ → Result ResponseError (List ℕ × List (List ℕ) × List ℕ)
table_name table src = do
  (index, rest) ← lift (read_uvarint src)
  elim (get_elem? table index) [
    | none ↦ err index_out_of_range
    | some name ↦ ok (name, table, rest)
  ]

-- The switch of `readName` on the token.
unfoldable pub by_token :
    ℕ
    → List ℕ
    → List ℕ
    → List (List ℕ)
    → List ℕ
    → Result ResponseError (List ℕ × List (List ℕ) × List ℕ)
by_token token qname previous table src =
    if token == 0
    then (if length qname == 0 then err qname_token_early else ok (qname, table, src))
    else if token == 1
    then (if length previous == 0 then err prev_token_early else ok (previous, table, src))
    else if token == 2
    then table_name table src
    else if token == 3
    then (do (wire, rest) ← read_wire_name src; ok (wire, table ++ (wire ∷ []), rest))
    else err unknown_token

-- `readName`: the name, the name table after it and the reader.
unfoldable pub read_name :
    List ℕ
    → List ℕ
    → List (List ℕ)
    → List ℕ
    → Result ResponseError (List ℕ × List (List ℕ) × List ℕ)
read_name qname previous table src = do
  (token, rest) ← lift (read_byte src)
  by_token token qname previous table rest

module _ (dns : DnsLibrary) where
  open dns use {pack_domain_name, pack_rr, unpack}

  -- packDomainNameWire
  unfoldable pub pack_qname : List Question → Result ResponseError (List ℕ)
  pack_qname [] = ok []
  pack_qname (question ∷ _) = packed (pack_domain_name question.name)

  -- packRdata
  unfoldable pub pack_rdata : Rr → Result ResponseError (List ℕ)
  pack_rdata rr = do
    bytes ← packed (pack_rr rr)
    owner ← packed (pack_domain_name rr.name)
    ok (drop (length owner + 10) bytes)

  unfoldable pub encode_questions : List Question → Result ResponseError (List ℕ)
  encode_questions [] = ok []
  encode_questions (question ∷ more) = do
    name ← packed (pack_domain_name question.name)
    rest ← encode_questions more
    ok ((3 ∷ name) ++ (put_uvarint question.qtype ++ (put_uvarint question.qclass ++ rest)))

  -- `encodeSection`: the bytes, the previous owner and the name table after it.
  unfoldable pub encode_section :
      List ℕ
      → List Rr
      → List ℕ
      → List (List ℕ)
      → Result ResponseError (List ℕ × List ℕ × List (List ℕ))
  encode_section qname [] previous table = ok ([], previous, table)
  encode_section qname (rr ∷ rrs) previous table = do
    owner ← packed (pack_domain_name rr.name)
    let (name, table') = encode_name qname previous table owner
    rdata ← pack_rdata rr
    (rest, previous', table'') ← encode_section qname rrs owner table'
    ok (
      name
          ++ (put_uvarint rr.rrtype
              ++ (put_uvarint rr.class
                  ++ (put_uvarint rr.ttl ++ (put_uvarint (length rdata) ++ (rdata ++ rest))))),
      previous',
      table'',
    )

  unfoldable pub pack_compact_response : Msg → Result ResponseError (List ℕ)
  pack_compact_response m = do
    qname ← pack_qname m.question
    let table = if ltb 0 (length qname) then qname ∷ [] else []
    questions ← encode_questions m.question
    (answer, p1, t1) ← encode_section qname m.answer [] table
    (ns, p2, t2) ← encode_section qname m.ns p1 t1
    (extra, _, _) ← encode_section qname m.extra p2 t2
    ok (
        (response_magic ∷ put_uvarint m.rcode)
        ++ ((pack_flags m ∷ put_uvarint (length m.question))
            ++ (put_uvarint (length m.answer)
                ++ (put_uvarint (length m.ns)
                    ++ (put_uvarint (length m.extra)
                        ++ (questions ++ (answer ++ (ns ++ extra))))))))

-- The loop over the questions: the wire, the name of the first question, the table, the reader.
unfoldable pub read_questions :
    ℕ
    → Bool
    → List ℕ
    → List (List ℕ)
    → List ℕ
    → Result ResponseError (List ℕ × List ℕ × List (List ℕ) × List ℕ)
read_questions zero first qname table src = ok ([], qname, table, src)
read_questions (suc count) first qname table src = do
  (name, table', r1) ← read_name qname [] table src
  let qname' = if first then name else qname
  (qtype, r2) ← lift (read_uvarint r1)
  (qclass, r3) ← lift (read_uvarint r2)
  (rest, qname'', table'', r4) ← read_questions count false qname' table' r3
  ok (name ++ (put_uint16 qtype ++ (put_uint16 qclass ++ rest)), qname'', table'', r4)

-- `readSection`: the wire, the previous owner, the table and the reader after it.
unfoldable pub read_section :
    List ℕ
    → ℕ
    → List ℕ
    → List (List ℕ)
    → List ℕ
    → Result ResponseError (List ℕ × List ℕ × List (List ℕ) × List ℕ)
read_section qname zero previous table src = ok ([], previous, table, src)
read_section qname (suc count) previous table src = do
  (owner, table', r1) ← read_name qname previous table src
  (rrtype, r2) ← lift (read_uvarint r1)
  (class, r3) ← lift (read_uvarint r2)
  (ttl, r4) ← lift (read_uvarint r3)
  (rdlength, r5) ← lift (read_uvarint r4)
  if ltb (length r5) rdlength then err rdlength_exceeds else do
    (rdata, r6) ← lift (read_full rdlength r5)
    (rest, previous', table'', r7) ← read_section qname count owner table' r6
    ok (
      owner
          ++ (put_uint16 rrtype
              ++ (put_uint16 class
                  ++ (put_uint32 ttl ++ (put_uint16 rdlength ++ (rdata ++ rest))))),
      previous',
      table'',
      r7,
    )

-- The standard wire message that unpackCompactResponse rebuilds from a payload.
unfoldable pub rebuild_wire : List ℕ → Result ResponseError (List ℕ)
rebuild_wire payload = do
  (magic, r1) ← lift (read_byte payload)
  if not (magic == response_magic) then err bad_magic else do
    (rcode, r2) ← lift (read_uvarint r1)
    (flags, r3) ← lift (read_byte r2)
    (qd, r4) ← lift (read_uvarint r3)
    (an, r5) ← lift (read_uvarint r4)
    (nscount, r6) ← lift (read_uvarint r5)
    (ar, r7) ← lift (read_uvarint r6)
    (questions, qname, t0, r8) ← read_questions qd true [] [] r7
    (answer, p1, t1, r9) ← read_section qname an [] t0 r8
    (ns, p2, t2, r10) ← read_section qname nscount p1 t1 r9
    (extra, _, _, _) ← read_section qname ar p2 t2 r10
    ok (
        (0 ∷ 0 ∷ put_uint16 (unpack_flags flags rcode))
        ++ (put_uint16 qd
            ++ (put_uint16 an
                ++ (put_uint16 nscount
                    ++ (put_uint16 ar ++ (questions ++ (answer ++ (ns ++ extra))))))))

module _ (dns : DnsLibrary) where
  unfoldable pub unpack_compact_response : List ℕ → Result ResponseError Msg
  unpack_compact_response payload = do
    wire ← rebuild_wire payload
    elim (dns.unpack wire) [ some m ↦ ok m | none ↦ err unpack_failed ]
