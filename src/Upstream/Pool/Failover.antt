-- ===== src/Upstream/Pool/Failover.antt =====
-- internal/upstream/upstream.go: Exchange returns the first answer, in the order of the pool.
use dns_over_minecraft.Prelude.{
  ℕ, ◌+◌, ◌≡◌, refl, Bool, true, false, List, [], ◌∷◌, ok, err, Result, Option, none, some, inl,
  inr, ◌⊎◌, Result-cases,
}
use mathlib.Core.Option
use dns_over_minecraft.Dns.{Msg}
use dns_over_minecraft.Upstream.Pool.{
  Upstream, Outcome, answer, no_message, failure, Float, Network, UpstreamPool, exchange_loop,
  record_success, exchange,
}

Outcome-cases : (o : Outcome) → ((m : Msg) × (o ≡ answer m)) ⊎ ((o ≡ no_message) ⊎ (o ≡ failure))
Outcome-cases (answer m) = inl (m, refl)
Outcome-cases no_message = inr (inl refl)
Outcome-cases failure = inr (inr refl)

-- What Exchange promises: of the upstreams in their order, the first that answers, with the number
-- of its attempt and its message.
unfoldable pub first_answer : Network → Msg → ℕ → List Upstream → Option (Upstream × ℕ × Msg)
first_answer net query attempt [] = none
first_answer net query attempt (u ∷ us) = elim (net.outcome attempt u query) [
  | answer m ↦ some (u, attempt, m)
  | _ ↦ first_answer net query (attempt + 1) us
]

-- The value of a result, whatever its error.
abbrev pub to_option {ℓ} : {E : Type 0} {A : Type ℓ} → Result E A → Option A
to_option (ok a) = some a
to_option (err e) = none

exchange_loop_lem :
    (net : Network) (query : Msg) (attempt : ℕ) (failed : Bool) (us : List Upstream)
    → ((a : ℕ) → net.done a ≡ false)
    → to_option (exchange_loop net query attempt failed us) ≡ first_answer net query attempt us
unfolding exchange_loop first_answer
exchange_loop_lem net query attempt failed [] h = refl
exchange_loop_lem net query attempt failed (u ∷ us) h =
    elim (Outcome-cases (net.outcome attempt u query)) [
      | inl (m, e) ↦ rw (h attempt, e, exchange_loop, first_answer) refl
      | inr (inl e) ↦
          rw (h attempt, e, exchange_loop, first_answer)
            (exchange_loop_lem net query (attempt + 1) false us h)
      | inr (inr e) ↦
          rw (h attempt, e, exchange_loop, first_answer)
            (exchange_loop_lem net query (attempt + 1) true us h)
    ]

-- The message, and the pool after it.
abbrev pub message_of : Upstream × ℕ × Msg → Msg
message_of (u, n, m) = m

unfoldable pub pool_after :
    {F : Type 0} → Float F → Network → UpstreamPool F → Option (Upstream × ℕ × Msg) → UpstreamPool F
pool_after float net p none = p
pool_after float net p (some (u, n, m)) = record_success float p u (net.elapsed n)

-- While the context is not done, Exchange returns the message of the first upstream that answers,
-- in the order of the pool, past any that fail or return nothing, and records the response time of
-- that upstream; if none answers, it returns an error and leaves the pool as it was.
pub exchange-first_answer :
    {F : Type 0} (float : Float F) (net : Network) (attempt : ℕ) (p : UpstreamPool F) (query : Msg)
    → ((a : ℕ) → net.done a ≡ false)
    → (to_option (exchange float net attempt p query).1
        ≡ Option.map message_of (first_answer net query attempt p.upstream_list))
      × ((exchange float net attempt p query).0
          ≡ pool_after float net p (first_answer net query attempt p.upstream_list))
unfolding exchange pool_after
exchange-first_answer float net attempt p query h =
    let r = exchange_loop net query attempt false p.upstream_list in
    rw (← exchange_loop_lem net query attempt false p.upstream_list h) (elim (Result-cases r) [
      | inl ((u, n, m), e) ↦ rw (e, exchange) (refl, refl)
      | inr (x, e) ↦ rw (e, exchange) (refl, refl)
    ])
