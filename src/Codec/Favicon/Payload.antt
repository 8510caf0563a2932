-- ===== src/Codec/Favicon/Payload.antt =====
-- internal/dnscodec/codec.go: packCompactResponse writes bytes.
use dns_over_minecraft.Prelude.{
  ℕ, ◌+◌, ◌<◌, ◌≡◌, refl, arith, ◌&&◌, List, [], ◌∷◌, ◌++◌, Option, none, some, length, ltb, All,
  All-append, All-drop, AllOk, AllOk-bind, bytes_eq, if◌then◌else◌, Bool-cases, Option-cases, inl,
  inr,
}
use dns_over_minecraft.Bytes.{IsByte, put_uvarint}
use dns_over_minecraft.Bytes.Uvarint.{put_uvarint_loop-IsByte}
use dns_over_minecraft.Dns.{Question, Rr, Msg, DnsLibrary}
use dns_over_minecraft.Codec.Response.{
  packed, set_flag, pack_flags, find_index, encode_name, pack_qname, pack_rdata, encode_questions,
  encode_section, pack_compact_response,
}

put_uvarint-IsByte : (v : ℕ) → All IsByte (put_uvarint v)
unfolding put_uvarint
put_uvarint-IsByte v = put_uvarint_loop-IsByte 10 v

pack_flags-IsByte : (m : Msg) → pack_flags m < 256
unfolding pack_flags set_flag
pack_flags-IsByte m = ground arith

encode_name-IsByte :
    (qname previous : List ℕ) (table : List (List ℕ)) (name : List ℕ)
    → All IsByte name
    → All IsByte (encode_name qname previous table name).0
unfolding encode_name
encode_name-IsByte qname previous table name h =
    elim (Bool-cases (ltb 0 (length qname) && bytes_eq name qname)) [
      | inl e ↦ rw (e, encode_name) (omega arith, tt)
      | inr e ↦ elim (Bool-cases (ltb 0 (length previous) && bytes_eq name previous)) [
        | inl e' ↦ rw (e, e', encode_name) (omega arith, tt)
        | inr e' ↦ elim (Option-cases (find_index 0 table name)) [
          | inl missing ↦ rw (e, e', missing, encode_name) (omega arith, h)
          | inr (index, found) ↦
              rw (e, e', found, encode_name) (omega arith, put_uvarint-IsByte index)
        ]
      ]
    ]

-- The DNS library packs names and records into bytes.
pub record PacksBytes (dns : DnsLibrary) : Type 0 where
  pub name_bytes : (name wire : List ℕ) → dns.pack_domain_name name ≡ some wire → All IsByte wire
  pub record_bytes : (rr : Rr) (wire : List ℕ) → dns.pack_rr rr ≡ some wire → All IsByte wire

packed-IsByte :
    (packing : Option (List ℕ))
    → ((wire : List ℕ) → packing ≡ some wire → All IsByte wire)
    → AllOk (All IsByte) (packed packing)
packed-IsByte none h = tt
packed-IsByte (some wire) h = h wire refl

-- What is left of a section: its first component is bytes.
abbrev BytesFirst : List ℕ × List ℕ × List (List ℕ) → Type 0
BytesFirst (bytes, previous, table) = All IsByte bytes

header_bytes-IsByte :
    (m : Msg) (body : List ℕ)
    → All IsByte body
    → All IsByte (
        (0xd1 ∷ put_uvarint m.rcode)
        ++ ((pack_flags m ∷ put_uvarint (length m.question))
            ++ (put_uvarint (length m.answer)
                ++ (put_uvarint (length m.ns) ++ (put_uvarint (length m.extra) ++ body)))))
header_bytes-IsByte m body h = (
  omega arith,
  All-append IsByte (put_uvarint m.rcode) _ (put_uvarint-IsByte _) (
    pack_flags-IsByte m,
    All-append IsByte (put_uvarint (length m.question)) _ (put_uvarint-IsByte _) (
        All-append IsByte (put_uvarint (length m.answer)) _ (put_uvarint-IsByte _) (
          All-append IsByte (put_uvarint (length m.ns)) _ (put_uvarint-IsByte _)
            (All-append IsByte (put_uvarint (length m.extra)) body (put_uvarint-IsByte _) h))),
  ),
)

module _ (dns : DnsLibrary) (bytes : PacksBytes dns) where
  packed_name-IsByte : (name : List ℕ) → AllOk (All IsByte) (packed (dns.pack_domain_name name))
  packed_name-IsByte name = packed-IsByte (dns.pack_domain_name name) (bytes.name_bytes name)

  pack_qname-IsByte : (questions : List Question) → AllOk (All IsByte) (pack_qname dns questions)
  unfolding pack_qname
  pack_qname-IsByte [] = tt
  pack_qname-IsByte (question ∷ more) = packed_name-IsByte question.name

  pack_rdata-IsByte : (rr : Rr) → AllOk (All IsByte) (pack_rdata dns rr)
  unfolding pack_rdata
  pack_rdata-IsByte rr =
      AllOk-bind (All IsByte) (All IsByte) (packed (dns.pack_rr rr)) _
        (packed-IsByte (dns.pack_rr rr) (bytes.record_bytes rr))
        (λ (wire : List ℕ) h.
          AllOk-bind (All IsByte) (All IsByte) (packed (dns.pack_domain_name rr.name)) _
            (packed_name-IsByte rr.name)
            (λ (owner : List ℕ) _. All-drop IsByte (length owner + 10) wire h))

  encode_questions-IsByte :
      (questions : List Question) → AllOk (All IsByte) (encode_questions dns questions)
  unfolding encode_questions
  encode_questions-IsByte [] = tt
  encode_questions-IsByte (question ∷ more) =
      AllOk-bind (All IsByte) (All IsByte) (packed (dns.pack_domain_name question.name)) _
        (packed_name-IsByte question.name)
        (λ (name : List ℕ) h.
          AllOk-bind (All IsByte) (All IsByte) (encode_questions dns more) _
            (encode_questions-IsByte more)
            (λ (rest : List ℕ) hr. (
              omega arith,
              All-append IsByte name _ h (
                  All-append IsByte (put_uvarint question.qtype) _ (put_uvarint-IsByte _) (
                    All-append IsByte (put_uvarint question.qclass) rest (put_uvarint-IsByte _)
                      hr)),
            )))

  record_bytes-IsByte :
      (name : List ℕ) (rr : Rr) (rdata rest : List ℕ)
      → All IsByte name
      → All IsByte rdata
      → All IsByte rest
      → All IsByte (
          name
          ++ (put_uvarint rr.rrtype
              ++ (put_uvarint rr.class
                  ++ (put_uvarint rr.ttl ++ (put_uvarint (length rdata) ++ (rdata ++ rest))))))
  record_bytes-IsByte name rr rdata rest hn hd hr = All-append IsByte name _ hn (
      All-append IsByte (put_uvarint rr.rrtype) _ (put_uvarint-IsByte _) (
        All-append IsByte (put_uvarint rr.class) _ (put_uvarint-IsByte _) (
          All-append IsByte (put_uvarint rr.ttl) _ (put_uvarint-IsByte _) (
            All-append IsByte (put_uvarint (length rdata)) _ (put_uvarint-IsByte _)
              (All-append IsByte rdata rest hd hr)))))

  encode_section-IsByte :
      (qname : List ℕ) (rrs : List Rr) (previous : List ℕ) (table : List (List ℕ))
      → AllOk BytesFirst (encode_section dns qname rrs previous table)
  unfolding encode_section
  encode_section-IsByte qname [] previous table = tt
  encode_section-IsByte qname (rr ∷ rrs) previous table =
      AllOk-bind (All IsByte) BytesFirst (packed (dns.pack_domain_name rr.name)) _
        (packed_name-IsByte rr.name)
        (λ (owner : List ℕ) ho.
          AllOk-bind (All IsByte) BytesFirst (pack_rdata dns rr) _ (pack_rdata-IsByte rr)
            (λ (rdata : List ℕ) hd.
              let table' = (encode_name qname previous table owner).1 in
              AllOk-bind BytesFirst BytesFirst (encode_section dns qname rrs owner table') _
                (encode_section-IsByte qname rrs owner table')
                (λ more hm.
                  record_bytes-IsByte (encode_name qname previous table owner).0 rr rdata more.0
                    (encode_name-IsByte qname previous table owner ho) hd hm)))

  pub pack_compact_response-IsByte : (m : Msg) → AllOk (All IsByte) (pack_compact_response dns m)
  unfolding pack_compact_response
  pack_compact_response-IsByte m =
      AllOk-bind (All IsByte) (All IsByte) (pack_qname dns m.question) _
        (pack_qname-IsByte m.question)
        (λ (qname : List ℕ) _.
          let table = if ltb 0 (length qname) then qname ∷ [] else [] in
          AllOk-bind (All IsByte) (All IsByte) (encode_questions dns m.question) _
            (encode_questions-IsByte m.question)
            (λ (questions : List ℕ) hq.
              AllOk-bind BytesFirst (All IsByte) (encode_section dns qname m.answer [] table) _
                (encode_section-IsByte qname m.answer [] table)
                (λ answer ha.
                  AllOk-bind BytesFirst (All IsByte)
                    (encode_section dns qname m.ns answer.1 answer.2) _
                    (encode_section-IsByte qname m.ns answer.1 answer.2)
                    (λ ns hn.
                      AllOk-bind BytesFirst (All IsByte)
                        (encode_section dns qname m.extra ns.1 ns.2) _
                        (encode_section-IsByte qname m.extra ns.1 ns.2)
                        (λ extra he.
                          header_bytes-IsByte m (questions ++ (answer.0 ++ (ns.0 ++ extra.0))) (
                            All-append IsByte questions _ hq (
                              All-append IsByte answer.0 _ ha
                                (All-append IsByte ns.0 _ hn he))))))))
