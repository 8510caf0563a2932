-- ===== src/Codec/Response/RoundTrip/Sections.antt =====
-- internal/dnscodec/codec.go: readSection and encodeSection, run side by side over a section.
use dns_over_minecraft.Prelude.{
  ℕ, suc, ◌+◌, ◌^◌, ◌<◌, ◌≤◌, ◌≡◌, refl, ap, ◌∙◌, arith, List, [], ◌∷◌, ◌++◌, some, length, drop,
  ok, All, length-append,
}
use dns_over_minecraft.Bytes.{put_uvarint, put_uint16, put_uint32}
use dns_over_minecraft.Bytes.Uvarint.{read_uvarint-put}
use dns_over_minecraft.Dns.{Rr, DnsLibrary}
use dns_over_minecraft.Codec.Response.{pack_rdata, encode_name, encode_section, read_section}
use dns_over_minecraft.Codec.Response.Names.{IsWireName, read_name-encode_name, length-encode_name}
use dns_over_minecraft.Mc.VarInt.RoundTrip.{read_full_append}
use mathlib.Core.List.{append_assoc}

-- RFC 1035, 4.1.3: a resource record on the wire.
abbrev pub rr_wire : Rr → List ℕ → List ℕ → List ℕ
rr_wire rr owner rdata =
    owner
    ++ (put_uint16 rr.rrtype
        ++ (put_uint16 rr.class ++ (put_uint32 rr.ttl ++ (put_uint16 (length rdata) ++ rdata))))

-- A record that the DNS library packs: its owner is a wire name, and the record is the owner, the
-- header fields and the data, as PackRR documents.
pub record IsPacked (dns : DnsLibrary) (rr : Rr) : Type 0 where
  pub owner : List ℕ
  pub rdata : List ℕ
  pub is_name : IsWireName owner
  pub packs_name : dns.pack_domain_name rr.name ≡ some owner
  pub packs_record : dns.pack_rr rr ≡ some (rr_wire rr owner rdata)
  pub type_fits : rr.rrtype < 2 ^ 16
  pub class_fits : rr.class < 2 ^ 16
  pub ttl_fits : rr.ttl < 2 ^ 32
  pub rdata_fits : length rdata < 2 ^ 16

drop-length_add {ℓ} :
    {A : Type ℓ} (xs ys : List A) (n : ℕ) → drop (length xs + n) (xs ++ ys) ≡ drop n ys
drop-length_add [] ys n = ap (λ k. drop k ys) (omega arith)
drop-length_add (x ∷ xs) ys n =
    ap (λ k. drop k (x ∷ (xs ++ ys))) (suc-add_lem (length xs) n) ∙ drop-length_add xs ys n
  where
    suc-add_lem : (a b : ℕ) → suc a + b ≡ suc (a + b)
    suc-add_lem a b = omega arith

module _ (dns : DnsLibrary) where
  -- The records of a section on the wire, one after the other.
  abbrev pub section_wire : (rrs : List Rr) → All (IsPacked dns) rrs → List ℕ
  section_wire [] h = []
  section_wire (rr ∷ rrs) (p, h) = rr_wire rr p.owner p.rdata ++ section_wire rrs h

  pack_rdata_lem : (rr : Rr) (p : IsPacked dns rr) → pack_rdata dns rr ≡ ok p.rdata
  unfolding pack_rdata put_uint16 put_uint32
  pack_rdata_lem rr p = rw (p.packs_record, p.packs_name) (ap ok (drop-length_add p.owner _ 10))

  -- What encodeSection writes for one record, before the rest.
  abbrev record_bytes : List ℕ → Rr → List ℕ → List ℕ → List ℕ
  record_bytes name rr rdata rest =
      name
      ++ (put_uvarint rr.rrtype
          ++ (put_uvarint rr.class
              ++ (put_uvarint rr.ttl ++ (put_uvarint (length rdata) ++ (rdata ++ rest)))))

  record_bytes-append :
      (name : List ℕ) (rr : Rr) (rdata rest more : List ℕ)
      → record_bytes name rr rdata rest ++ more ≡ record_bytes name rr rdata (rest ++ more)
  record_bytes-append name rr rdata rest more = simp append_assoc

  rr_wire-append :
      (rr : Rr) (owner rdata rest : List ℕ)
      → rr_wire rr owner rdata ++ rest
        ≡ owner
          ++ (put_uint16 rr.rrtype
              ++ (put_uint16 rr.class
                  ++ (put_uint32 rr.ttl ++ (put_uint16 (length rdata) ++ (rdata ++ rest)))))
  rr_wire-append rr owner rdata rest = simp append_assoc

  read_section_step :
      (qname previous : List ℕ) (table : List (List ℕ)) (count : ℕ) (rr : Rr) (p : IsPacked dns rr)
      (rest : List ℕ) (wire previous' : List ℕ) (table' : List (List ℕ)) (src' : List ℕ)
      → length table < 2 ^ 64
      → read_section qname count p.owner (encode_name qname previous table p.owner).1 rest
        ≡ ok (wire, previous', table', src')
      → read_section qname
          (suc count)
          previous
          table
          (record_bytes (encode_name qname previous table p.owner).0 rr p.rdata rest)
        ≡ ok (rr_wire rr p.owner p.rdata ++ wire, previous', table', src')
  unfolding read_section
  read_section_step qname previous table count rr p rest wire previous' table' src' small e =
      ground (
        arith,
        rr_wire-append rr p.owner p.rdata wire,
        read_name-encode_name qname previous table p.owner
            (put_uvarint rr.rrtype
              ++ (put_uvarint rr.class
                  ++ (put_uvarint rr.ttl ++ (put_uvarint (length p.rdata) ++ (p.rdata ++ rest)))))
            p.is_name small,
        read_uvarint-put rr.rrtype (
            put_uvarint rr.class
            ++ (put_uvarint rr.ttl ++ (put_uvarint (length p.rdata) ++ (p.rdata ++ rest)))),
        read_uvarint-put rr.class
            (put_uvarint rr.ttl ++ (put_uvarint (length p.rdata) ++ (p.rdata ++ rest))),
        read_uvarint-put rr.ttl (put_uvarint (length p.rdata) ++ (p.rdata ++ rest)),
        read_uvarint-put (length p.rdata) (p.rdata ++ rest),
        length-append p.rdata rest,
        read_full_append p.rdata rest,
        e,
      )

  -- What encodeSection leaves, and that readSection follows it to the same state.
  pub record Follows (qname : List ℕ) (rrs : List Rr) (h : All (IsPacked dns) rrs)
      (previous : List ℕ) (table : List (List ℕ)) : Type 0 where
    pub bytes : List ℕ
    pub previous' : List ℕ
    pub table' : List (List ℕ)
    pub encoded : encode_section dns qname rrs previous table ≡ ok (bytes, previous', table')
    pub grows : length table' ≤ length table + length rrs
    pub read :
        (rest : List ℕ)
        → read_section qname (length rrs) previous table (bytes ++ rest)
          ≡ ok (section_wire rrs h, previous', table', rest)

  pub section-Follows :
      (qname : List ℕ) (rrs : List Rr) (h : All (IsPacked dns) rrs) (previous : List ℕ)
      (table : List (List ℕ))
      → length table + length rrs < 2 ^ 64
      → Follows qname rrs h previous table
  unfolding encode_section
  section-Follows qname [] h previous table small = record {
    bytes = [];
    previous' = previous;
    table' = table;
    encoded = refl;
    grows = omega arith;
    read = λ rest. unfold read_section in refl;
  }
  section-Follows qname (rr ∷ rrs) (p, h) previous table small =
      let named = encode_name qname previous table p.owner in
      let one : length named.1 ≤ length table + 1 =
        length-encode_name qname previous table p.owner in
      let f = section-Follows qname rrs h p.owner named.1 (omega arith) in
      record {
        bytes = record_bytes named.0 rr p.rdata f.bytes;
        previous' = f.previous';
        table' = f.table';
        encoded = rw (p.packs_name, pack_rdata_lem rr p, f.encoded);
        grows = omega (arith, f.grows);
        read = λ rest.
            ap (read_section qname (suc (length rrs)) previous table)
              (record_bytes-append named.0 rr p.rdata f.bytes rest)
            ∙ read_section_step qname previous table (length rrs) rr p (f.bytes ++ rest)
                (section_wire rrs h) f.previous' f.table' rest (omega arith) (f.read rest);
      }
