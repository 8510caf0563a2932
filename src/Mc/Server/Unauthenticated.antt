-- ===== src/Mc/Server/Unauthenticated.antt =====
-- internal/mc/server.go: a connection over the budget of its address, and one without the
-- passphrase.
use dns_over_minecraft.Prelude.{
  ℕ, ◌<◌, ◌≡◌, refl, ◌∙◌, arith, Bool, true, false, List, [], ◌∷◌, ◌++◌, Option, none, length, ◌⊎◌,
  inl, inr,
}
use dns_over_minecraft.Dns.{DnsLibrary}
use dns_over_minecraft.Codec.Query.{strip_suffix}
use dns_over_minecraft.Codec.Status.{JsonLibrary}
use dns_over_minecraft.Resolver.{Pool}
use dns_over_minecraft.Mc.RateLimit.{IpRateLimiter}
use dns_over_minecraft.Mc.Address.{extract_passphrase}
use dns_over_minecraft.Mc.Frame.{
  Handshake, encode_handshake, encode_status_request, encode_status_response_json,
}
use dns_over_minecraft.Mc.Server.{
  Server, State, Visit, handle_ping, vanilla_status_json, write_vanilla_status, reject_and_close,
}
use dns_over_minecraft.Mc.Server.Connection.{
  check_rate, checked_address, handle_conn, handle_status,
}
use dns_over_minecraft.Mc.Server.Reads.{
  IsStatusHandshake, AdmitsHandshakes, drain_frames_lem, handle_frames_lem,
}

module _ {P : Type 0} (dns : DnsLibrary) (json : JsonLibrary) (wave : ℕ → ℕ → ℕ → ℕ → ℕ)
    (pool : Pool P) (server : Server) where
  refused_address :
      (bare passphrase : List ℕ)
      → 0 < length passphrase
      → extract_passphrase bare passphrase ≡ none
      → checked_address bare passphrase ≡ none
  unfolding checked_address
  refused_address bare [] asked refused = absurd (omega arith)
  refused_address bare (b ∷ passphrase) asked refused = refused

  handle_status_unauthenticated :
      (st : State P) (visit : Visit) (h : Handshake) (rest : List ℕ)
      → 0 < length server.passphrase
      → extract_passphrase (strip_suffix h.server_address server.suffix) server.passphrase ≡ none
      → handle_status dns json wave pool server st visit h rest
        ≡ (st, write_vanilla_status json wave server visit rest)
  unfolding handle_status reject_and_close
  handle_status_unauthenticated st visit h rest asked refused =
      rw (refused_address _ server.passphrase asked refused, handle_status) refl

  -- If the frame limit admits every handshake, then a client that asks for the status and is over
  -- the rate limit, or whose address does not carry the passphrase that the server asks for, gets
  -- the vanilla status and the answer to its ping, the same in both cases; and of what the
  -- connections share, nothing changes but the rate limiter.
  pub handle_conn_unauthenticated :
      (st : State P) (visit : Visit) (h : Handshake) (rest : List ℕ)
      (limiter : Option IpRateLimiter) (passes : Bool)
      → AdmitsHandshakes server
      → IsStatusHandshake h
      → check_rate st.rate_limiter visit.allowed_at visit.client_ip ≡ (limiter, passes)
      → (passes ≡ false)
        ⊎ ((0 < length server.passphrase)
            × (extract_passphrase (strip_suffix h.server_address server.suffix) server.passphrase
                ≡ none))
      → handle_conn dns json wave pool server st visit
          (encode_handshake h ++ (encode_status_request ++ rest))
        ≡ (
          record st { rate_limiter = limiter },
          encode_status_response_json (vanilla_status_json json wave server visit)
              ++ handle_ping server rest,
        )
  unfolding handle_conn reject_and_close write_vanilla_status
  handle_conn_unauthenticated st visit h rest limiter false admits is rate out =
      rw (rate, handle_conn, drain_frames_lem server admits h rest is, reject_and_close) refl
  handle_conn_unauthenticated st visit h rest limiter true admits is rate (inl limited) =
      absurd (cc limited)
  handle_conn_unauthenticated st visit h rest limiter true admits is rate (inr (asked, refused)) =
      rw (rate, handle_conn)
        (handle_frames_lem server admits dns json wave pool (record st { rate_limiter = limiter })
            visit h rest is
          ∙ handle_status_unauthenticated (record st { rate_limiter = limiter }) visit h rest asked
              refused)
