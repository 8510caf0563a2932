-- ===== src/Tests/EndToEnd.antt =====
-- A query that the client sends and the server answers, at a concrete input.
use dns_over_minecraft.Prelude.{ℕ, ◌≡◌, refl, arith, [], none, ok, bytes_eq}
use dns_over_minecraft.Text.{
  codes, split_dots, to_lower, lower_byte, trim_suffix, has_suffix, has_prefix,
}
use dns_over_minecraft.Base64.{base64_encode}
use dns_over_minecraft.Dns.{Msg}
use dns_over_minecraft.Codec.Query.{decoded_message, advertised_size}
use dns_over_minecraft.Codec.Query.RoundTrip.{seen_size, asked_name}
use dns_over_minecraft.Codec.Status.{build_status_json, dns_status}
use dns_over_minecraft.Resolver.{Resolver, resolve}
use dns_over_minecraft.Mc.Address.{auth_prefix_for, with_suffix}
use dns_over_minecraft.Mc.Server.{effective_motd}
use dns_over_minecraft.Mc.Server.Connection.{check_rate}
use dns_over_minecraft.Mc.Client.{query}
use dns_over_minecraft.Mc.Client.EndToEnd.{served, query_resolved}
use dns_over_minecraft.Tests.Resolving.{noon, counting_pool, fresh_resolver}
use dns_over_minecraft.Tests.{google_IsLabel, query_a, question_a, answer_a}
use dns_over_minecraft.Records.{has_owner}
use dns_over_minecraft.Tests.Serving.{
  bytes_dns, bytes_dns-PacksBytes, encoded_a, encodes_a, text_a, packs_a, answer_packs, short_json,
  short_json-KeepsMotd, server_mc, state_mc, visit_mc, flat, server_mc-AdmitsHandshakes,
}

abbrev asked_message : Msg
asked_message =
    decoded_message bytes_dns (seen_size (advertised_size bytes_dns query_a)) 1
      (asked_name question_a)

abbrev resolved_a : Resolver ℕ
resolved_a = (resolve bytes_dns counting_pool fresh_resolver noon asked_message).0

resolves_a :
    resolve bytes_dns counting_pool fresh_resolver noon asked_message ≡ (resolved_a, answer_a)
unfolding resolve decoded_message advertised_size has_owner
resolves_a = refl

query_resolved_example :
    query bytes_dns short_json
      (served bytes_dns short_json flat counting_pool server_mc visit_mc)
      7
      state_mc
      (codes "mc.test")
      (codes "key")
      query_a
      none
    ≡ (
      record state_mc { rate_limiter = none; resolver = resolved_a },
      ok (record answer_a { id = 0 }),
    )
unfolding split_dots to_lower lower_byte trim_suffix has_suffix bytes_eq effective_motd
    build_status_json dns_status base64_encode with_suffix auth_prefix_for has_prefix check_rate
query_resolved_example =
    query_resolved bytes_dns short_json flat counting_pool server_mc state_mc visit_mc 7 query_a
      question_a [] none encoded_a none resolved_a answer_a answer_a text_a answer_packs
      server_mc-AdmitsHandshakes ((ground arith, (ground arith, (ground arith, tt))))
      (short_json-KeepsMotd _) bytes_dns-PacksBytes refl refl (omega arith) (google_IsLabel, tt)
      encodes_a (omega arith) refl resolves_a refl packs_a (omega arith) (ground arith)
