-- ===== src/Client/RoundRobin.antt =====
-- internal/client/client.go: the loop of Resolve asks every server once, from `nextServer`
-- on, unless another call of Resolve takes a server in between.
use dns_over_minecraft.Prelude.{
  ℕ, zero, suc, ◌+◌, ◌-◌, ◌%◌, ◌<◌, ◌≡◌, refl, ap, sym, subst, ◌∙◌, arith, false, List, ltb, ◌==◌,
  Option, none, some, length, Option-cases, Bool-cases, inl, inr,
}
use dns_over_minecraft.Dns.{Question, Msg, DnsLibrary}
use dns_over_minecraft.Codec.Opt.{strip_unasked}
use dns_over_minecraft.Cache.Optional.{Clock}
use dns_over_minecraft.Client.{
  Client, Servers, picked_by_others, server_at, pick_server, try_servers, accept, resolve_servers,
}
use native.Mathlib.Nat.{mod-lt, mod-add-mod, add-mod_right, mod-eq_of_lt}

-- The servers are taken in turn.
pub pick_server_lem :
    (c : Client)
    → 0 < length c.servers
    → ((pick_server c).1 ≡ server_at c.servers (c.next_server % length c.servers))
      × ((pick_server c).0.servers ≡ c.servers)
      × ((pick_server c).0.suffix ≡ c.suffix)
      × (1 < length c.servers → (pick_server c).0.next_server ≡ c.next_server + 1)
unfolding pick_server
pick_server_lem c h = elim (Bool-cases (length c.servers == 1)) [
  | inl e ↦
      let one : length c.servers ≡ 1 = ground arith in
      let first : 0 ≡ c.next_server % length c.servers =
        sym (ap (λ n. c.next_server % n) one ∙ omega arith) in
      rw e (ap (server_at c.servers) first, refl, refl, λ k. absurd (omega arith))
  | inr e ↦ rw e (refl, refl, refl, λ k. refl)
]

-- The result of the loop is an answer that one of its queries gave.
abbrev pub Answered : Servers → Option Msg → List ℕ → Msg → Type 0
Answered net result suffix query =
    (a : ℕ) × (server : List ℕ) × (m : Msg) × (net.query_func a server suffix query ≡ some m)
    × (result ≡ some m)

-- The index of a server moves one round closer with each server that is asked.
next_round :
    (c : Client) (i j : ℕ)
    → j < length c.servers
    → (c.next_server + suc i) % length c.servers ≡ j
    → ((pick_server c).0.next_server + i) % length c.servers ≡ j
next_round c i j hj e =
    let (picked, same, same', next) = pick_server_lem c (omega arith) in
    elim (Bool-cases (ltb 1 (length c.servers))) [
      | inl many ↦
          ap (λ n. (n + i) % length c.servers) (next (ground arith))
          ∙ ap (λ n. n % length c.servers) (omega arith)
          ∙ e
      | inr single ↦
          let one : length c.servers ≡ 1 = ground arith in
          ap (λ n. ((pick_server c).0.next_server + i) % n) one ∙ omega arith
    ]

no_picks : (c : Client) (picks : ℕ) → picks ≡ 0 → picked_by_others c picks ≡ c
unfolding picked_by_others
no_picks c picks h = elim (Bool-cases (length c.servers == 1)) [
  | inl e ↦ rw e refl
  | inr e ↦
      let same : c.next_server + picks ≡ c.next_server = omega arith in
      rw e (λ i. record c { next_server = same i })
]

-- The rounds that are left behind a choice of the server.
unfoldable round_of_loop : Servers → ℕ → ℕ → Client → Msg → Client → Client × Option Msg
round_of_loop net rounds attempt c query chosen =
    elim (net.query_func attempt (pick_server chosen).1 c.suffix query) [
      | some m ↦ ((pick_server chosen).0, some m)
      | none ↦ try_servers net rounds (attempt + 1) (pick_server chosen).0 query
    ]

try_servers_alone :
    (net : Servers) (rounds attempt : ℕ) (c : Client) (query : Msg)
    → net.other_picks attempt ≡ 0
    → try_servers net (suc rounds) attempt c query ≡ round_of_loop net rounds attempt c query c
unfolding try_servers round_of_loop
try_servers_alone net rounds attempt c query h =
    ap (round_of_loop net rounds attempt c query) (no_picks c (net.other_picks attempt) h)

-- A round in which any server answers ends the loop with an answer.
try_servers_reaches :
    (net : Servers) (answer : ℕ → Msg) (rounds attempt i j : ℕ) (c : Client) (query : Msg)
    → ((a : ℕ) → net.other_picks a ≡ 0)
    → j < length c.servers
    → i < rounds
    → (c.next_server + i) % length c.servers ≡ j
    → ((a : ℕ) → net.query_func a (server_at c.servers j) c.suffix query ≡ some (answer a))
    → Answered net (try_servers net rounds attempt c query).1 c.suffix query
unfolding round_of_loop
try_servers_reaches net answer zero attempt i j c query alone hj hi e h = absurd (omega arith)
try_servers_reaches net answer (suc rounds) attempt zero j c query alone hj hi e h =
    let (picked, _, _, _) = pick_server_lem c (omega arith) in
    let here : (pick_server c).1 ≡ server_at c.servers j =
      picked ∙ ap (server_at c.servers) (ap (λ n. n % length c.servers) (omega arith) ∙ e) in
    let answered : net.query_func attempt (pick_server c).1 c.suffix query ≡ some (answer attempt) =
      ap (λ s. net.query_func attempt s c.suffix query) here ∙ h attempt in
    subst (λ r. Answered net r.1 c.suffix query)
      (sym (try_servers_alone net rounds attempt c query (alone attempt)))
      (rw (answered, round_of_loop) (attempt, (pick_server c).1, answer attempt, answered, refl))
try_servers_reaches net answer (suc rounds) attempt (suc i) j c query alone hj hi e h =
    let c' = (pick_server c).0 in
    let (_, same, same', _) = pick_server_lem c (omega arith) in
    let size : length c'.servers ≡ length c.servers = ap length same in
    let rest =
      try_servers_reaches net answer rounds (attempt + 1) i j c' query alone (omega (arith, size))
        (omega arith) (ap (λ n. (c'.next_server + i) % n) size ∙ next_round c i j hj e)
        (λ a.
          ap (λ s. net.query_func a s c'.suffix query) (ap (λ l. server_at l j) same)
          ∙ ap (λ x. net.query_func a (server_at c.servers j) x query) same'
          ∙ h a) in
    subst (λ r. Answered net r.1 c.suffix query)
      (sym (try_servers_alone net rounds attempt c query (alone attempt)))
      (elim (Option-cases (net.query_func attempt (pick_server c).1 c.suffix query)) [
        | inr (m, f) ↦ rw (f, round_of_loop) (attempt, (pick_server c).1, m, f, refl)
        | inl f ↦
            rw (f, round_of_loop)
              (subst (λ x. Answered net (try_servers net rounds (attempt + 1) c' query).1 x query)
                same' rest)
      ])

-- The round in which a server is asked.
round_of : (next n j : ℕ) → j < n → (i : ℕ) × (i < n) × ((next + i) % n ≡ j)
round_of next n j h =
    let r = next % n in
    let small : r < n = mod-lt next (omega arith) in
    elim (Bool-cases (ltb j r)) [
      | inl before ↦ (
        j + n - r,
        ground arith,
        sym (mod-add-mod next n (j + n - r))
            ∙ ap (λ k. k % n) (ground arith)
            ∙ add-mod_right j n
            ∙ mod-eq_of_lt h,
      )
      | inr after ↦ (
        j - r,
        ground arith,
        sym (mod-add-mod next n (j - r)) ∙ ap (λ k. k % n) (ground arith) ∙ mod-eq_of_lt h,
      )
    ]

-- If one of the servers answers the query at every attempt, and no other call of Resolve takes a
-- server while this one runs, then the loop over the servers, wherever it starts, ends with an answer:
-- Resolve returns, with no error, what one of its queries returned, without the OPT record if the query
-- has none.
pub resolve_servers_reaches :
    (dns : DnsLibrary) (net : Servers) (answer : ℕ → Msg) (j : ℕ) (c : Client) (clock : Clock)
    (question : Question) (query : Msg)
    → ((a : ℕ) → net.other_picks a ≡ 0)
    → j < length c.servers
    → ((a : ℕ) → net.query_func a (server_at c.servers j) c.suffix query ≡ some (answer a))
    → (a : ℕ) × (server : List ℕ) × (m : Msg) × (net.query_func a server c.suffix query ≡ some m)
      × ((resolve_servers dns net c clock question query).1
          ≡ record { message = strip_unasked (dns.is_edns0 query) m; failed = false })
unfolding resolve_servers accept
resolve_servers_reaches dns net answer j c clock question query alone hj h =
    let (i, hi, e) = round_of c.next_server (length c.servers) j hj in
    let (a, server, m, given, found) =
      try_servers_reaches net answer (length c.servers) 0 i j c query alone hj hi e h in
    (a, server, m, given, rw (found, resolve_servers) refl)
