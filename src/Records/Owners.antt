-- ===== src/Records/Owners.antt =====
-- internal/records/records.go: which names the records of an answer have.
use dns_over_minecraft.Prelude.{
  ℕ, ◌<◌, ◌≡◌, refl, arith, true, false, ◌&&◌, List, [], ◌∷◌, ◌++◌, ◌==◌, if◌then◌else◌, Option,
  length, bytes_eq, bytes_eq_iff, All, Bool-cases, inl, inr, sym, ◌∙◌, ◌⊎◌,
}
use dns_over_minecraft.Text.{to_lower, has_prefix, has_suffix, codes}
use mathlib.Core.List.{append-nil, append_assoc, Memᴰ}
use dns_over_minecraft.Dns.{Rr, DnsLibrary}
use dns_over_minecraft.Records.{
  RecordSet, Wildcard, Store, add_exact, records_of, add_all, add_record, parse_values, Record,
  type_cname,
}

-- A wildcard of the list that has records for a question, and the records that come of it.
abbrev pub IsFrom : List Wildcard → List ℕ → ℕ → List ℕ → List Rr → Type 0
IsFrom wildcards name qtype owner rrs =
    (w : Wildcard) × Memᴰ w wildcards
    × ((w.query_type ≡ qtype) ⊎ (w.query_type ≡ type_cname))
    × ((has_suffix name w.suffix ≡ true) ⊎ (name ≡ w.suffix))
    × (0 < length rrs)
    × (length rrs ≡ length w.resource_records)
    × All (λ rr. rr.name ≡ owner) rrs

-- Adding a record to the set of a name and a type leaves every other set as it is, and puts the
-- record behind those that its own set had.
pub records_of-add_exact :
    (owner other : List ℕ) (qtype other_type : ℕ) (rr : Rr) (exact : List RecordSet)
    → records_of other other_type (add_exact owner qtype rr exact) ≡ (
        if bytes_eq owner other && qtype == other_type
        then records_of other other_type exact ++ (rr ∷ [])
        else records_of other other_type exact)
unfolding records_of add_exact
records_of-add_exact owner other qtype other_type rr [] = ground arith
records_of-add_exact owner other qtype other_type rr (s ∷ exact) = ground (
  arith,
  records_of-add_exact owner other qtype other_type rr exact,
  bytes_eq_iff s.owner owner,
  bytes_eq_iff s.owner other,
  bytes_eq_iff owner other,
)

records_of-add_all :
    (owner other : List ℕ) (qtype other_type : ℕ) (rrs : List Rr) (exact : List RecordSet)
    → records_of other other_type (add_all owner qtype rrs exact) ≡ (
        if bytes_eq owner other && qtype == other_type
        then records_of other other_type exact ++ rrs
        else records_of other other_type exact)
unfolding add_all
records_of-add_all owner other qtype other_type [] exact =
    elim (Bool-cases (bytes_eq owner other && qtype == other_type)) [
      | inl e ↦ rw e (sym (append-nil (records_of other other_type exact)))
      | inr e ↦ rw e refl
    ]
records_of-add_all owner other qtype other_type (rr ∷ rrs) exact =
    records_of-add_all owner other qtype other_type rrs (add_exact owner qtype rr exact)
    ∙ elim (Bool-cases (bytes_eq owner other && qtype == other_type)) [
      | inl e ↦
          rw (records_of-add_exact owner other qtype other_type rr exact, e)
            (append_assoc (records_of other other_type exact) (rr ∷ []) rrs)
      | inr e ↦ rw (records_of-add_exact owner other qtype other_type rr exact, e) refl
    ]

-- A record of the configuration whose name has no wildcard adds, to the records of its own name in
-- lower case and of its own type, those of its values that parse, behind the ones that are there,
-- and changes the records of no other name or type, and no wildcard.
pub records_of-add_record :
    (dns : DnsLibrary) (new_rr : List ℕ → Option Rr) (query_type : ℕ) (r : Record) (st : Store)
    (other : List ℕ) (other_type : ℕ)
    → has_prefix r.name (codes "*.") ≡ false
    → (records_of other other_type (add_record dns new_rr query_type r st).exact ≡ (
        if bytes_eq (dns.fqdn (to_lower r.name)) other && query_type == other_type
        then records_of other other_type st.exact
          ++ parse_values new_rr
              (dns.fqdn (to_lower r.name))
              (if r.ttl == 0 then 300 else r.ttl)
              r.rtype
              r.values
        else records_of other other_type st.exact))
      × ((add_record dns new_rr query_type r st).wildcards ≡ st.wildcards)
unfolding add_record
records_of-add_record dns new_rr query_type r st other other_type h =
    rw (h, add_record)
      (
        records_of-add_all (dns.fqdn (to_lower r.name)) other query_type other_type
            (parse_values new_rr (dns.fqdn (to_lower r.name)) (if r.ttl == 0 then 300 else r.ttl)
              r.rtype r.values)
            st.exact,
        refl,
      )
