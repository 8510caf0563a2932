-- ===== src/Upstream/Exchange.antt =====
-- internal/upstream: Exchange of tcp.go and dot.go, which share their text, with exchangeOnConn of
-- conn_pool.go, and Exchange of doh.go with validateResponse. The actions of
-- other threads are taken where a call waits for a connection, and nowhere else within it.
pub mod Validated
pub mod Returned
use dns_over_minecraft.Prelude.{
  ℕ, zero, suc, ◌+◌, ◌-◌, ◌*◌, ◌^◌, Bool, true, false, ◌&&◌, not, List, [], ◌∷◌, ◌++◌, ltb, ◌==◌,
  if◌then◌else◌, Option, none, some, length, take, bytes_eq, Result, ok, err,
}
use dns_over_minecraft.Text.{to_lower}
use dns_over_minecraft.Dns.{Question, Msg, DnsLibrary}
use dns_over_minecraft.Upstream.ConnPool.{
  PooledConn, ConnPool, idle_conn_timeout, default_conn_pool_size, new_conn_pool, without_conn,
  Action, act, wake, give_up,
}

pub data ExchangeError : Type 0 where
  acquire_failed network_failed response_mismatch : ExchangeError
  pack_failed bad_status response_too_large unpack_failed : ExchangeError

-- The fields of TCP, DoT and DoH that have to do with an exchange; `address` is the URL of DoH.
pub record Endpoint : Type 0 where
  pub name : List ℕ
  pub address : List ℕ
  pub priority : ℕ
  pub timeout : ℕ

unfoldable pub or_two_seconds : ℕ → ℕ
or_two_seconds timeout = if timeout == 0 then 2 * 10 ^ 9 else timeout

-- NewTCP and NewDoT, with the connection pool, and NewDoH.
unfoldable pub new_stream : List ℕ → List ℕ → ℕ → ℕ → Endpoint × ConnPool
unfolding or_two_seconds new_conn_pool
new_stream name address priority timeout = (
  record { name = name; address = address; priority = priority; timeout = or_two_seconds timeout },
  new_conn_pool default_conn_pool_size,
)

unfoldable pub new_doh : List ℕ → List ℕ → ℕ → ℕ → Endpoint
unfolding or_two_seconds
new_doh name url priority timeout = record {
  name = name;
  address = url;
  priority = priority;
  timeout = or_two_seconds timeout;
}

-- The two questions of validateResponse; strings.EqualFold, on ASCII.
unfoldable pub same_question : DnsLibrary → Question → Question → Bool
unfolding bytes_eq to_lower
same_question dns q r =
    bytes_eq (to_lower (dns.fqdn q.name)) (to_lower (dns.fqdn r.name))
    && (q.qtype == r.qtype && q.qclass == r.qclass)

unfoldable pub single_question : DnsLibrary → List Question → List Question → Bool
unfolding same_question
single_question dns (q ∷ []) (r ∷ []) = same_question dns q r
single_question dns qs rs = false

unfoldable pub validate_response : DnsLibrary → Msg → Msg → Bool
unfolding single_question
validate_response dns response query =
    response.id == query.id && single_question dns response.question query.question

-- What a call meets: whether the next dial succeeds, whether a fresh dial does, and the message that
-- is read on a connection behind the query, none if the write or the read fails. For a call that
-- waits at the second select of acquire: the actions of the other threads until its wait ends, and
-- whether its context is done then, which the select may take although a connection is idle too.
pub record Stream : Type 0 where
  pub dials : Bool
  pub dials_fresh : Bool
  pub reads : ℕ → Msg → Option Msg
  pub others : List (ℕ × Action)
  pub done : Bool

unfoldable pub checked : DnsLibrary → Msg → Msg → Result ExchangeError Msg
unfolding validate_response
checked dns query response =
    if validate_response dns response query then ok response else err response_mismatch

unfoldable pub exchange_on_conn : DnsLibrary → Stream → ℕ → Msg → Result ExchangeError Msg
unfolding checked
exchange_on_conn dns net conn query = elim (net.reads conn query) [
  | none ↦ err network_failed
  | some response ↦ checked dns query response
]

-- The actions of other threads; one that no thread can take is left out.
unfoldable pub run_others : List (ℕ × Action) → ConnPool → ConnPool
unfolding act
run_others [] p = p
run_others ((now, action) ∷ others) p = elim (act now action p) [
  | none ↦ run_others others p
  | some q ↦ run_others others q
]

-- The call no longer waits.
unfoldable pub stop_waiting : ConnPool → ConnPool
unfolding give_up
stop_waiting p = elim (give_up p p.waiting) [ none ↦ p | some q ↦ q ]

-- The second select of acquire, on the idle connections at its end: it gives the first, however long
-- that was idle, or none if the context is done. With nobody left to wake, as the other actions have
-- ended this wait too, it gives none.
unfoldable pub receive : Bool → ConnPool → List PooledConn → ConnPool × Option (ℕ × Bool)
unfolding stop_waiting
receive done p [] = (stop_waiting p, none)
receive done p ((conn, last_used) ∷ rest) =
    if done then (stop_waiting p, none) else elim (wake p p.waiting ((conn, last_used) ∷ rest)) [
      | none ↦ (p, none)
      | some q ↦ (q, some (conn, true))
    ]

-- acquire with no idle connection and no room: the call waits while the other threads act.
unfoldable pub wait_idle : Stream → ConnPool → ConnPool × Option (ℕ × Bool)
unfolding run_others receive
wait_idle net p =
    let q = run_others net.others (record p { waiting = p.waiting + 1 }) in
    receive net.done q q.idle

-- acquire, on the idle connections: the connection and whether it was reused.
unfoldable pub acquire : ℕ → Stream → ConnPool → List PooledConn → ConnPool × Option (ℕ × Bool)
unfolding wait_idle
acquire now net p [] =
    let dialed : ConnPool = record p {
      total = p.total + 1;
      lent = p.next_conn ∷ p.lent;
      next_conn = p.next_conn + 1;
    } in
    if ltb p.total p.max
    then (if net.dials then (dialed, some (p.next_conn, false)) else (p, none))
    else wait_idle net p
acquire now net p ((conn, last_used) ∷ rest) =
    let next = acquire now net (record p { idle = rest; total = p.total - 1 }) rest in
    if ltb (last_used + idle_conn_timeout) now
    then next
    else (record p { idle = rest; lent = conn ∷ p.lent }, some (conn, true))

-- The whole of release.
unfoldable pub release_all : ℕ → ℕ → Bool → ConnPool → ConnPool
unfolding without_conn
release_all now conn healthy p =
    let returned = without_conn conn p.lent in
    let closed : ConnPool = record p { lent = returned; total = p.total - 1 } in
    if healthy
    then (if ltb (length p.idle) p.max
        then record p { lent = returned; idle = p.idle ++ ((conn, now) ∷ []) }
        else closed)
    else closed

-- The retry on a connection outside the pool.
unfoldable pub retry_fresh :
    DnsLibrary → Stream → ℕ → Msg → ExchangeError → Result ExchangeError Msg
unfolding exchange_on_conn
retry_fresh dns net fresh query failure =
    if net.dials_fresh then exchange_on_conn dns net fresh query else err failure

-- Exchange behind acquire.
unfoldable pub exchange_acquired :
    DnsLibrary
    → Stream
    → ℕ
    → Msg
    → ConnPool
    → Option (ℕ × Bool)
    → ConnPool × Result ExchangeError Msg
unfolding exchange_on_conn release_all retry_fresh
exchange_acquired dns net now query p none = (p, err acquire_failed)
exchange_acquired dns net now query p (some (conn, reused)) =
    elim (exchange_on_conn dns net conn query) [
      | ok m ↦ (release_all now conn true p, ok m)
      | err failure ↦ (
        release_all now conn false p,
        if reused then retry_fresh dns net p.next_conn query failure else err failure,
      )
    ]

unfoldable pub exchange :
    DnsLibrary → Stream → ℕ → ConnPool → Msg → ConnPool × Result ExchangeError Msg
unfolding acquire exchange_acquired
exchange dns net now p query =
    let (q, acquired) = acquire now net p p.idle in exchange_acquired dns net now query q acquired

abbrev pub max_doh_response_size : ℕ
max_doh_response_size = 65536

-- What comes of the HTTP response: its status and its body.
unfoldable pub doh_response : DnsLibrary → Msg → ℕ × List ℕ → Result ExchangeError Msg
unfolding checked
doh_response dns query (status, body) =
    let response_body = take max_doh_response_size body in
    if not (status == 200)
    then err bad_status
    else if length response_body == max_doh_response_size
    then err response_too_large
    else elim (dns.unpack response_body) [
      | none ↦ err unpack_failed
      | some response ↦ checked dns query response
    ]

-- Exchange of DoH, with Pack and the HTTP client, none if the request or a read of the body fails.
unfoldable pub exchange_doh :
    DnsLibrary
    → (Msg → Option (List ℕ))
    → (List ℕ → Option (ℕ × List ℕ))
    → Msg
    → Result ExchangeError Msg
unfolding doh_response
exchange_doh dns pack post query = elim (pack query) [
  | none ↦ err pack_failed
  | some wire ↦ elim (post wire) [
    | none ↦ err network_failed
    | some response ↦ doh_response dns query response
  ]
]
