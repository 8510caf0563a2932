-- ===== src/Dns.antt =====
-- The data of the library github.com/miekg/dns that the program reads and writes, and the calls
-- that it makes of that library, as parameters: a record of functions with no definition here.
use dns_over_minecraft.Prelude.{ℕ, Bool, List, Option}

pub record Question : Type 0 where
  pub name : List ℕ
  pub qtype : ℕ
  pub qclass : ℕ

-- A resource record: its header, and the rest, which the program never looks into.
pub record Rr : Type 0 where
  pub name : List ℕ
  pub rrtype : ℕ
  pub class : ℕ
  pub ttl : ℕ
  pub rdata : List ℕ

pub record Msg : Type 0 where
  pub id : ℕ
  pub response : Bool
  pub opcode : ℕ
  pub authoritative : Bool
  pub truncated : Bool
  pub recursion_desired : Bool
  pub recursion_available : Bool
  pub authenticated_data : Bool
  pub checking_disabled : Bool
  pub rcode : ℕ
  pub question : List Question
  pub answer : List Rr
  pub ns : List Rr
  pub extra : List Rr

-- `Fqdn`, the maps `ClassToString` and `TypeToString` (empty at a missing key), `new(Msg)`, `IsEdns0` (the OPT record), `UDPSize`, `Do`, `SetQuestion`, `SetEdns0`,
-- `SetReply` (the message, the request), `PackDomainName` and `PackRR` (the bytes, no compression)
-- and `Unpack`; none is an error.
pub record DnsLibrary : Type 0 where
  pub fqdn : List ℕ → List ℕ
  pub class_to_string : ℕ → List ℕ
  pub type_to_string : ℕ → List ℕ
  pub new_msg : Msg
  pub is_edns0 : Msg → Option Rr
  pub udp_size : Rr → ℕ
  pub do_bit : Rr → Bool
  pub set_question : Msg → List ℕ → ℕ → Msg
  pub set_edns0 : Msg → ℕ → Bool → Msg
  pub set_reply : Msg → Msg → Msg
  pub pack_domain_name : List ℕ → Option (List ℕ)
  pub pack_rr : Rr → Option (List ℕ)
  pub unpack : List ℕ → Option Msg
