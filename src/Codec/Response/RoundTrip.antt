-- ===== src/Codec/Response/RoundTrip.antt =====
-- internal/dnscodec/codec.go: unpackCompactResponse rebuilds, from the payload that
-- packCompactResponse wrote, the standard wire message with every name expanded.
mod Sections
pub use Sections.{rr_wire, IsPacked, section_wire, Follows, section-Follows}
use dns_over_minecraft.Prelude.{
  ℕ, suc, ◌+◌, ◌*◌, ◌%◌, ◌^◌, ◌<◌, ◌≤◌, ◌≡◌, refl, ap, sym, ◌∙◌, arith, Bool, true, false, List, [],
  ◌∷◌, ◌++◌, Option, none, some, length, drop, ltb, ok, err, All, length-append,
}
use dns_over_minecraft.Bytes.{put_uvarint, put_uint16, read_byte}
use dns_over_minecraft.Bytes.Uvarint.{read_uvarint-put}
use dns_over_minecraft.Dns.{Question, Rr, Msg, DnsLibrary}
use dns_over_minecraft.Codec.Response.{
  pack_flags, unpack_flags, pack_qname, encode_questions, encode_section, pack_compact_response,
  read_questions, read_section, rebuild_wire, unpack_compact_response, read_name, by_token,
}
use dns_over_minecraft.Codec.Labels.{pack_label_list}
use dns_over_minecraft.Codec.Response.Names.{IsWireName, read_wire_name_lem}
use dns_over_minecraft.Codec.Response.Flags.{header_flags, unpack_flags-pack_flags}
use mathlib.Core.List.{append_assoc, append-nil}

module _ (dns : DnsLibrary) where
  -- A question that the DNS library packs.
  pub record IsAsked (question : Question) : Type 0 where
    pub qname : List ℕ
    pub is_name : IsWireName qname
    pub packs_name : dns.pack_domain_name question.name ≡ some qname
    pub qtype_fits : question.qtype < 2 ^ 16
    pub qclass_fits : question.qclass < 2 ^ 16

  -- A message of one question that the DNS library packs.
  pub record IsPackable (m : Msg) : Type 0 where
    pub asked : Question
    pub only : m.question ≡ asked ∷ []
    pub packs_question : IsAsked asked
    pub packs_answer : All (IsPacked dns) m.answer
    pub packs_ns : All (IsPacked dns) m.ns
    pub packs_extra : All (IsPacked dns) m.extra
    pub rcode_fits : m.rcode < 2 ^ 64
    pub counts_fit : length m.answer + length m.ns + length m.extra + 1 < 2 ^ 64

  -- RFC 1035, 4.1: the message on the wire with identifier 0 and no compressed name.
  abbrev pub message_wire : (m : Msg) → IsPackable m → List ℕ
  message_wire m p =
      (0 ∷ 0 ∷ put_uint16 (header_flags m * 16 + m.rcode % 16))
      ++ (put_uint16 1
          ++ (put_uint16 (length m.answer)
              ++ (put_uint16 (length m.ns)
                  ++ (put_uint16 (length m.extra)
                      ++ ((p.packs_question.qname
                            ++ (put_uint16 p.asked.qtype ++ (put_uint16 p.asked.qclass ++ [])))
                          ++ (section_wire dns m.answer p.packs_answer
                              ++ (section_wire dns m.ns p.packs_ns
                                  ++ section_wire dns m.extra p.packs_extra)))))))

  abbrev question_bytes : (question : Question) → IsAsked question → List ℕ
  question_bytes question q =
      (3 ∷ q.qname) ++ (put_uvarint question.qtype ++ (put_uvarint question.qclass ++ []))

  encode_questions_lem :
      (question : Question) (q : IsAsked question)
      → encode_questions dns (question ∷ []) ≡ ok (question_bytes question q)
  unfolding encode_questions
  encode_questions_lem question q = rw q.packs_name

  read_questions_lem :
      (question : Question) (q : IsAsked question) (rest : List ℕ)
      → read_questions 1 true [] [] (question_bytes question q ++ rest)
        ≡ ok (
          q.qname ++ (put_uint16 question.qtype ++ (put_uint16 question.qclass ++ [])),
          q.qname,
          q.qname ∷ [],
          rest,
        )
  unfolding read_questions read_name by_token read_byte
  read_questions_lem question q rest =
      let tail = put_uvarint question.qtype ++ (put_uvarint question.qclass ++ rest) in
      let split : question_bytes question q ++ rest ≡ 3 ∷ (q.qname ++ tail) = simp append_assoc in
      ap (read_questions 1 true [] []) split
      ∙ ground (
        arith,
        q.qtype_fits,
        q.qclass_fits,
        read_wire_name_lem q.qname tail q.is_name,
        read_uvarint-put question.qtype (put_uvarint question.qclass ++ rest),
        read_uvarint-put question.qclass rest,
      )

  -- The header of the payload, and the body behind it.
  abbrev payload_bytes : ℕ → ℕ → ℕ → ℕ → ℕ → ℕ → List ℕ → List ℕ
  payload_bytes rcode flags qd an nc ar body =
      (0xd1 ∷ put_uvarint rcode)
      ++ ((flags ∷ put_uvarint qd)
          ++ (put_uvarint an ++ (put_uvarint nc ++ (put_uvarint ar ++ body))))

  rebuild_wire_lem :
      (rcode flags qd an nc ar : ℕ) (body : List ℕ)
      (questions qname r8 answer p1 r9 ns p2 r10 extra p3 r11 : List ℕ)
      (t0 t1 t2 t3 : List (List ℕ))
      → rcode < 2 ^ 64
      → qd < 2 ^ 64
      → an < 2 ^ 64
      → nc < 2 ^ 64
      → ar < 2 ^ 64
      → read_questions qd true [] [] body ≡ ok (questions, qname, t0, r8)
      → read_section qname an [] t0 r8 ≡ ok (answer, p1, t1, r9)
      → read_section qname nc p1 t1 r9 ≡ ok (ns, p2, t2, r10)
      → read_section qname ar p2 t2 r10 ≡ ok (extra, p3, t3, r11)
      → rebuild_wire (payload_bytes rcode flags qd an nc ar body)
        ≡ ok (
            (0 ∷ 0 ∷ put_uint16 (unpack_flags flags rcode))
            ++ (put_uint16 qd
                ++ (put_uint16 an
                    ++ (put_uint16 nc
                        ++ (put_uint16 ar ++ (questions ++ (answer ++ (ns ++ extra))))))))
  unfolding rebuild_wire read_byte
  rebuild_wire_lem rcode flags qd an nc ar body questions qname r8 answer p1 r9 ns p2 r10 extra p3
        r11 t0 t1 t2 t3 h1 h2 h3 h4 h5 e0 e1 e2 e3 =
      rw (
        read_uvarint-put rcode
            ((flags ∷ put_uvarint qd)
              ++ (put_uvarint an ++ (put_uvarint nc ++ (put_uvarint ar ++ body))))
            h1,
        read_uvarint-put qd (put_uvarint an ++ (put_uvarint nc ++ (put_uvarint ar ++ body))) h2,
        read_uvarint-put an (put_uvarint nc ++ (put_uvarint ar ++ body)) h3,
        read_uvarint-put nc (put_uvarint ar ++ body) h4,
        read_uvarint-put ar body h5,
        e0,
        e1,
        e2,
        e3,
      )

  pack_qname_lem :
      (question : Question) (q : IsAsked question) → pack_qname dns (question ∷ []) ≡ ok q.qname
  unfolding pack_qname
  pack_qname_lem question q = rw q.packs_name

  length-wire_name : (wire : List ℕ) → IsWireName wire → 0 < length wire
  length-wire_name wire w =
      omega (arith, ap length w.spelled, length-append (pack_label_list w.labels) (0 ∷ []))

  -- The payload of a message of one question, whose names, records and counts are as IsPackable
  -- says that the DNS library packs them, is rebuilt to the standard wire message, in which every
  -- name is expanded, every record is as PackRR packs it, and the header holds the response bit,
  -- the six flags and the low four bits of the response code.
  pub rebuild_wire-pack_compact_response :
      (m : Msg) (p : IsPackable m)
      → (payload : List ℕ) × (pack_compact_response dns m ≡ ok payload)
        × (rebuild_wire payload ≡ ok (message_wire m p))
  unfolding pack_compact_response put_uint16
  rebuild_wire-pack_compact_response m p =
      let q = p.packs_question in
      let n = q.qname in
      let fa =
        section-Follows dns n m.answer p.packs_answer [] (n ∷ []) (omega (arith, p.counts_fit)) in
      let fn =
        section-Follows dns n m.ns p.packs_ns fa.previous' fa.table'
          (omega (arith, p.counts_fit, fa.grows)) in
      let fe =
        section-Follows dns n m.extra p.packs_extra fn.previous' fn.table'
          (omega (arith, p.counts_fit, fa.grows, fn.grows)) in
      let body = question_bytes p.asked q ++ (fa.bytes ++ (fn.bytes ++ fe.bytes)) in
      let filled : ltb 0 (length n) ≡ true = ground (arith, length-wire_name n q.is_name) in
      let last =
        ap (read_section n (length m.extra) fn.previous' fn.table') (sym (append-nil fe.bytes))
        ∙ fe.read [] in
      (
        payload_bytes m.rcode (pack_flags m) 1 (length m.answer) (length m.ns) (length m.extra)
            body,
        rw (
          ap (pack_qname dns) p.only ∙ pack_qname_lem p.asked q,
          ap (encode_questions dns) p.only ∙ encode_questions_lem p.asked q,
          filled,
          ap length p.only,
          fa.encoded,
          fn.encoded,
          fe.encoded,
        ),
        rebuild_wire_lem m.rcode (pack_flags m) 1 (length m.answer) (length m.ns) (length m.extra)
              body _ n _ _ _ _ _ _ _ _ _ _ _ _ _ _ p.rcode_fits (omega arith)
              (omega (arith, p.counts_fit)) (omega (arith, p.counts_fit))
              (omega (arith, p.counts_fit))
              (read_questions_lem p.asked q (fa.bytes ++ (fn.bytes ++ fe.bytes)))
              (fa.read (fn.bytes ++ fe.bytes)) (fn.read fe.bytes) last
            ∙ ap (λ (t : ℕ). ok ((0 ∷ 0 ∷ put_uint16 t) ++ drop 4 (message_wire m p)))
                (unpack_flags-pack_flags m m.rcode),
      )
