-- ===== src/Mc/Server/Answers.antt =====
-- internal/mc/server.go: a query that arrives in one address is decoded, resolved and answered.
use dns_over_minecraft.Prelude.{
  ℕ, ◌<◌, ◌≡◌, refl, ap, ◌∙◌, true, false, List, [], ◌∷◌, ◌++◌, some, length, bytes_eq_refl, ok,
  Bool-cases, inl, inr,
}
use dns_over_minecraft.Text.{NoDot, has_prefix}
use dns_over_minecraft.Text.Dots.{split_dots_last}
use dns_over_minecraft.Dns.{Msg, DnsLibrary}
use dns_over_minecraft.Codec.Query.{strip_suffix, decode_query}
use dns_over_minecraft.Codec.Favicon.{encode_response}
use dns_over_minecraft.Codec.Status.{JsonLibrary, build_status_json}
use dns_over_minecraft.Resolver.{Pool, Resolver, resolve}
use dns_over_minecraft.Mc.Address.{auth_prefix_for, with_suffix, is_fragmented, fragment_shape}
use dns_over_minecraft.Mc.Address.Single.{extract_passphrase-auth_prefix_for}
use dns_over_minecraft.Mc.Address.Suffix.{strip_suffix-with_suffix}
use dns_over_minecraft.Mc.Frame.{Handshake, encode_status_response_json}
use dns_over_minecraft.Mc.Server.{
  Server, State, Visit, effective_motd, payload_base64, send_dns_response, write_status_json,
  handle_ping,
}
use dns_over_minecraft.Mc.Server.Connection.{
  checked_address, handle_address, handle_status, answer_with,
}

-- A text of one label is no fragment.
is_fragmented-NoDot : (h : Handshake) (bare : List ℕ) → NoDot bare → is_fragmented h bare ≡ false
unfolding is_fragmented fragment_shape
is_fragmented-NoDot h bare nd = elim (Bool-cases (has_prefix bare (b'n' ∷ b'.' ∷ []))) [
  | inl marked ↦ rw (split_dots_last bare nd, marked) refl
  | inr other ↦ rw other refl
]

-- The address of a query, under the passphrase of the server or none.
checked_address-auth_prefix_for :
    (passphrase bare : List ℕ)
    → NoDot passphrase
    → checked_address (auth_prefix_for passphrase ++ bare) passphrase ≡ some bare
unfolding checked_address
checked_address-auth_prefix_for [] bare np = unfold auth_prefix_for in refl
checked_address-auth_prefix_for (b ∷ passphrase) bare np =
    extract_passphrase-auth_prefix_for b passphrase bare (b ∷ passphrase) np
    ∙ rw (bytes_eq_refl (b ∷ passphrase)) refl

module _ {P : Type 0} (dns : DnsLibrary) (json : JsonLibrary) (wave : ℕ → ℕ → ℕ → ℕ → ℕ)
    (pool : Pool P) (server : Server) where
  pub handle_address_lem :
      (st : State P) (visit : Visit) (h : Handshake) (bare src : List ℕ) (query_message : Msg)
      (resolver' : Resolver P) (response_message : Msg)
      → NoDot bare
      → decode_query dns bare [] ≡ ok query_message
      → resolve dns pool st.resolver visit.clock query_message ≡ (resolver', response_message)
      → handle_address dns json wave pool server st visit h bare src
        ≡ (record st { resolver = resolver' }, answer_with dns json server response_message src)
  unfolding handle_address
  handle_address_lem st visit h bare src query_message resolver' response_message nd decodes
        resolves =
      rw (is_fragmented-NoDot h bare nd, decodes, handle_address, resolves) refl

  pub handle_status_lem :
      (st : State P) (visit : Visit) (h : Handshake) (bare src : List ℕ)
      → NoDot server.passphrase
      → NoDot bare
      → 0 < length bare
      → h.server_address ≡ with_suffix (auth_prefix_for server.passphrase ++ bare) server.suffix
      → handle_status dns json wave pool server st visit h src
        ≡ handle_address dns json wave pool server st visit h bare src
  unfolding handle_status
  handle_status_lem st visit h bare src np nd filled address =
      let passed =
        ap (λ t. checked_address (strip_suffix t server.suffix) server.passphrase) address
        ∙ ap (λ t. checked_address t server.passphrase)
            (strip_suffix-with_suffix (auth_prefix_for server.passphrase) bare server.suffix nd
              filled)
        ∙ checked_address-auth_prefix_for server.passphrase bare np in
      rw (passed, handle_status) refl

module _ (dns : DnsLibrary) (json : JsonLibrary) (server : Server) where
  -- A response that has an encoding is written as the status with that text in its favicon.
  pub answer_with_lem :
      (response_message : Msg) (text src : List ℕ)
      → encode_response dns (some response_message) ≡ ok text
      → json.is_valid (build_status_json json (effective_motd server) text) ≡ true
      → answer_with dns json server response_message src
        ≡ encode_status_response_json (build_status_json json (effective_motd server) text)
          ++ handle_ping server src
  unfolding answer_with send_dns_response payload_base64 write_status_json
  answer_with_lem response_message text src encodes valid =
      rw (encodes, payload_base64, valid, write_status_json) refl
