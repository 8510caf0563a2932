-- ===== src/Codec/Response/Flags.antt =====
-- internal/dnscodec/codec.go: the flag byte of packFlags and the header word of unpackFlags.
use dns_over_minecraft.Prelude.{ℕ, ◌+◌, ◌*◌, ◌%◌, ◌^◌, ◌≡◌, ◌∙◌, arith, Bool, if◌then◌else◌, bit_or}
use dns_over_minecraft.Prelude.Bits.{high_bit_or}
use dns_over_minecraft.Dns.{Msg}
use dns_over_minecraft.Codec.Response.{pack_flags, unpack_flags, set_flag}

abbrev bit : Bool → ℕ → ℕ
bit set weight = if set then weight else 0

-- RFC 1035 and 2535: the header word of a response with opcode 0 and no reserved bit, without the
-- response code, in units of its lowest flag.
abbrev pub header_flags : Msg → ℕ
header_flags m =
    2048
    + bit m.authoritative 64
    + bit m.truncated 32
    + bit m.recursion_desired 16
    + bit m.recursion_available 8
    + bit m.authenticated_data 2
    + bit m.checking_disabled 1

abbrev FlagsWord : (aa ra rd tc ad cd : Bool) → Type 0
FlagsWord aa ra rd tc ad cd =
    (rcode : ℕ)
    → unpack_flags
        (set_flag cd 32
          (set_flag ad 16 (set_flag tc 8 (set_flag rd 4 (set_flag ra 2 (set_flag aa 1 0))))))
        rcode
      ≡ bit_or ((2048 + bit aa 64 + bit tc 32 + bit rd 16 + bit ra 8 + bit ad 2 + bit cd 1) * 2 ^ 4)
          (rcode % 16)

unpack-FlagsWord : (aa ra rd tc ad cd : Bool) → FlagsWord aa ra rd tc ad cd
unfolding unpack_flags
unpack-FlagsWord aa ra rd tc ad cd rcode = ground arith

-- unpackFlags makes of the byte of packFlags the header word with the response bit, the six flags
-- of the message and the low four bits of the response code.
pub unpack_flags-pack_flags :
    (m : Msg) (rcode : ℕ) → unpack_flags (pack_flags m) rcode ≡ header_flags m * 16 + rcode % 16
unfolding pack_flags
unpack_flags-pack_flags m rcode =
    unpack-FlagsWord m.authoritative m.recursion_available m.recursion_desired m.truncated
      m.authenticated_data m.checking_disabled rcode
    ∙ high_bit_or 4 (header_flags m) (rcode % 16) (omega arith)
