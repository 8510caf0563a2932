-- ===== src/Records.antt =====
-- internal/records/records.go: the records of the configuration. The map `exact` is the list of its
-- record sets, one for each name and type.
pub mod Owners
use dns_over_minecraft.Prelude.{
  ℕ, zero, suc, ◌+◌, ◌/◌, ◌%◌, Bool, true, false, ◌&&◌, ◌||◌, not, List, [], ◌∷◌, ◌++◌, map, ltb,
  ◌==◌, if◌then◌else◌, Option, none, some, length, bytes_eq,
}
use dns_over_minecraft.Text.{codes, has_prefix, has_suffix, trim_prefix, to_lower, to_upper}
use dns_over_minecraft.Dns.{Question, Rr, DnsLibrary}

pub record Record : Type 0 where
  pub name : List ℕ
  pub rtype : List ℕ
  pub ttl : ℕ
  pub values : List (List ℕ)

-- A record set of `exact`: the inner map's entry for a name and a type.
pub record RecordSet : Type 0 where
  pub owner : List ℕ
  pub qtype : ℕ
  pub rrs : List Rr

pub record Wildcard : Type 0 where
  pub suffix : List ℕ
  pub query_type : ℕ
  pub resource_records : List Rr

pub record Store : Type 0 where
  pub exact : List RecordSet
  pub wildcards : List Wildcard

abbrev pub type_cname : ℕ
type_cname = 5

-- strconv.FormatUint(v, 10), in at most `fuel` digits: ten are enough for 32 bits.
unfoldable pub format_digits : ℕ → ℕ → List ℕ → List ℕ
format_digits zero v digits = digits
format_digits (suc fuel) v digits =
    let digits' = (48 + v % 10) ∷ digits in
    let rest = format_digits fuel (v / 10) digits' in if v / 10 == 0 then digits' else rest

unfoldable pub record_string : List ℕ → ℕ → List ℕ → List ℕ → List ℕ
unfolding format_digits
record_string owner ttl rtype value =
    owner ++ (b' ' ∷ (format_digits 10 ttl [] ++ (codes " IN " ++ (rtype ++ (b' ' ∷ value)))))

-- `append` to the record set of a name and a type.
unfoldable pub add_exact : List ℕ → ℕ → Rr → List RecordSet → List RecordSet
unfolding bytes_eq
add_exact owner qtype rr [] = record { owner = owner; qtype = qtype; rrs = rr ∷ [] } ∷ []
add_exact owner qtype rr (s ∷ exact) =
    if bytes_eq s.owner owner && s.qtype == qtype
    then record s { rrs = s.rrs ++ (rr ∷ []) } ∷ exact
    else s ∷ add_exact owner qtype rr exact

-- The records of a name and a type, and whether the map has the name.
unfoldable pub records_of : List ℕ → ℕ → List RecordSet → List Rr
unfolding bytes_eq
records_of owner qtype [] = []
records_of owner qtype (s ∷ exact) =
    if bytes_eq s.owner owner && s.qtype == qtype then s.rrs else records_of owner qtype exact

unfoldable pub has_owner : List ℕ → List RecordSet → Bool
unfolding bytes_eq
has_owner owner [] = false
has_owner owner (s ∷ exact) = bytes_eq s.owner owner || has_owner owner exact

-- The records of the values that NewRR parses.
unfoldable pub parse_values : (List ℕ → Option Rr) → List ℕ → ℕ → List ℕ → List (List ℕ) → List Rr
unfolding record_string
parse_values new_rr owner ttl rtype [] = []
parse_values new_rr owner ttl rtype (value ∷ values) =
    let rest = parse_values new_rr owner ttl rtype values in
    elim (new_rr (record_string owner ttl rtype value)) [ none ↦ rest | some rr ↦ rr ∷ rest ]

unfoldable pub add_all : List ℕ → ℕ → List Rr → List RecordSet → List RecordSet
unfolding add_exact
add_all owner qtype [] exact = exact
add_all owner qtype (rr ∷ rrs) exact = add_all owner qtype rrs (add_exact owner qtype rr exact)

-- The body of the loop of New, for a record of a known type.
unfoldable pub add_record : DnsLibrary → (List ℕ → Option Rr) → ℕ → Record → Store → Store
unfolding parse_values add_all
add_record dns new_rr query_type r st =
    let ttl' = if r.ttl == 0 then 300 else r.ttl in
    let owner = dns.fqdn (to_lower r.name) in
    if has_prefix r.name (codes "*.")
    then record st {
      wildcards =
          st.wildcards
          ++ (record {
            suffix = dns.fqdn (to_lower (trim_prefix r.name (codes "*.")));
            query_type = query_type;
            resource_records = parse_values new_rr (dns.fqdn r.name) ttl' r.rtype r.values;
          }
              ∷ []);
    }
    else record st {
      exact = add_all owner query_type (parse_values new_rr owner ttl' r.rtype r.values) st.exact;
    }

-- New, with the map `StringToType` and the function `NewRR` of the DNS library.
unfoldable pub new_store :
    DnsLibrary → (List ℕ → Option ℕ) → (List ℕ → Option Rr) → List Record → Store → Store
unfolding add_record
new_store dns string_to_type new_rr [] st = st
new_store dns string_to_type new_rr (r ∷ rs) st = elim (string_to_type (to_upper r.rtype)) [
  | none ↦ new_store dns string_to_type new_rr rs st
  | some query_type ↦ new_store dns string_to_type new_rr rs (add_record dns new_rr query_type r st)
]

-- `copiedRecord.Header().Name = ...`
unfoldable pub rename : List ℕ → Rr → Rr
rename owner rr = record rr { name = owner }

-- Whether a wildcard is one for the question.
unfoldable pub wildcard_matches : List ℕ → ℕ → Wildcard → Bool
unfolding bytes_eq
wildcard_matches name qtype w =
    (w.query_type == qtype || w.query_type == type_cname)
    && (has_suffix name w.suffix || bytes_eq name w.suffix)

-- The loop over the wildcards.
unfoldable pub lookup_wildcards : List ℕ → ℕ → List ℕ → List Wildcard → Option (List Rr)
unfolding rename wildcard_matches
lookup_wildcards name qtype owner [] = none
lookup_wildcards name qtype owner (w ∷ wildcards) =
    let rest = lookup_wildcards name qtype owner wildcards in
    if wildcard_matches name qtype w && ltb 0 (length w.resource_records)
    then some (map (rename owner) w.resource_records)
    else rest

-- The answer of a name of the map `exact`.
unfoldable pub lookup_exact : List ℕ → ℕ → List RecordSet → List Rr
unfolding records_of
lookup_exact name qtype exact =
    let matched = records_of name qtype exact in
    let cname = records_of name type_cname exact in
    if ltb 0 (length matched)
    then matched
    else if ltb 0 (length cname) && not (qtype == type_cname)
    then cname
    else []

-- The records, if the store is authoritative for the name.
unfoldable pub lookup : DnsLibrary → Store → Question → Option (List Rr)
unfolding lookup_exact lookup_wildcards
lookup dns st question =
    let name = dns.fqdn (to_lower question.name) in
    if has_owner name st.exact
    then some (lookup_exact name question.qtype st.exact)
    else lookup_wildcards name question.qtype (dns.fqdn question.name) st.wildcards
