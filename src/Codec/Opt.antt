-- ===== src/Codec/Opt.antt =====
-- internal/dnscodec/codec.go: StripOPT and BuildErrorResponse. A record is an OPT record if its type
-- is 41, where the source asks for the Go type of the record.
use dns_over_minecraft.Prelude.{ℕ, List, [], ◌∷◌, ◌==◌, if◌then◌else◌, Option, none, some}
use dns_over_minecraft.Dns.{Rr, Msg, DnsLibrary}

abbrev pub type_opt : ℕ
type_opt = 41

abbrev pub format_error : ℕ
format_error = 1

abbrev pub server_failure : ℕ
server_failure = 2

-- The loop of StripOPT.
unfoldable pub without_opt : List Rr → List Rr
without_opt [] = []
without_opt (rr ∷ rrs) =
    let rest = without_opt rrs in if rr.rrtype == type_opt then rest else rr ∷ rest

unfoldable pub strip_opt : Msg → Msg
unfolding without_opt
strip_opt m = record m { extra = without_opt m.extra }

-- `if IsEdns0() == nil { StripOPT(response) }`, with the OPT record of the query.
unfoldable pub strip_unasked : Option Rr → Msg → Msg
unfolding strip_opt
strip_unasked none m = strip_opt m
strip_unasked (some opt) m = m

-- `new(dns.Msg)`, SetReply if the query is not nil, and the response code.
unfoldable pub build_error_response : DnsLibrary → Option Msg → ℕ → Msg
build_error_response dns none response_code = record dns.new_msg { rcode = response_code }
build_error_response dns (some query) response_code = record (dns.set_reply dns.new_msg query) {
  rcode = response_code;
}
