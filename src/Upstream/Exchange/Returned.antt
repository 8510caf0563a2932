-- ===== src/Upstream/Exchange/Returned.antt =====
-- internal/upstream: Exchange over a stream is a schedule of the pool's actions, and returns the
-- connection that it acquires.
use dns_over_minecraft.Prelude.{
  ℕ, zero, suc, ◌+◌, ◌≤◌, ◌<◌, ◌⊎◌, subst, sym, ◌-◌, ◌≡◌, refl, ap, ◌∙◌, arith, Bool, true, false,
  List, [], ◌∷◌, ◌++◌, ltb, Option, none, some, length, Bool-cases, Option-cases, Result-cases, inl,
  inr,
}
use dns_over_minecraft.Dns.{Msg, DnsLibrary}
use dns_over_minecraft.Upstream.ConnPool.{
  PooledConn, ConnPool, idle_conn_timeout, Action, takes, reserves, dialed, drops, releases, waits,
  wakes, gives_up, wake, give_up, lends, without_conn, take_idle, dial_done, drop_closed, release,
  act, run,
}
use dns_over_minecraft.Upstream.Exchange.{
  Stream, exchange_on_conn, acquire, release_all, exchange_acquired, exchange, run_others,
  stop_waiting, receive, wait_idle,
}

-- One pool comes of another by a schedule.
abbrev pub Reaches : ConnPool → ConnPool → Type 0
Reaches p q = (schedule : List (ℕ × Action)) × (run schedule p ≡ some q)

run-append :
    (s t : List (ℕ × Action)) (p q r : ConnPool)
    → run s p ≡ some q
    → run t q ≡ some r
    → run (s ++ t) p ≡ some r
unfolding run
run-append [] t p q r h k = let same : p ≡ q = ground (arith, h) in ap (run t) same ∙ k
run-append ((now, action) ∷ s) t p q r h k = elim (Option-cases (act now action p)) [
  | inl e ↦ cc (rw (e, run) at h)
  | inr (p', e) ↦ rw (e, run) (run-append s t p' q r (rw (e, run) at h) k)
]

Reaches-trans : (p q r : ConnPool) → Reaches p q → Reaches q r → Reaches p r
Reaches-trans p q r (s, h) (t, k) = (s ++ t, run-append s t p q r h k)

Reaches-act : (now : ℕ) (action : Action) (p q : ConnPool) → act now action p ≡ some q → Reaches p q
unfolding run
Reaches-act now action p q h = ((now, action) ∷ [], rw (h, run) refl)

takes-drops :
    (now conn t : ℕ) (rest : List PooledConn) (p : ConnPool)
    → p.idle ≡ (conn, t) ∷ rest
    → ltb (t + idle_conn_timeout) now ≡ true
    → Reaches p (record p { idle = rest; total = p.total - 1 })
unfolding act take_idle drop_closed
takes-drops now conn t rest p e old =
    let closed : ConnPool = record p { idle = rest; closing = p.closing + 1 } in
    Reaches-trans p closed _
      (Reaches-act now takes p closed (ap (take_idle now p) e ∙ rw (old, take_idle) refl))
      (Reaches-act now drops closed _ (ap (drop_closed closed) {y = suc p.closing} (omega arith)))

reserves-dialed :
    (now : ℕ) (p : ConnPool)
    → ltb p.total p.max ≡ true
    → Reaches p
        (record p { total = p.total + 1; lent = p.next_conn ∷ p.lent; next_conn = p.next_conn + 1 })
unfolding act dial_done
reserves-dialed now p room =
    let begun : ConnPool = record p { total = p.total + 1; dialing = p.dialing + 1 } in
    Reaches-trans p begun _ (Reaches-act now reserves p begun (rw (room, act) refl))
      (Reaches-act now dialed begun _ (ap (dial_done begun) {y = suc p.dialing} (omega arith)))

takes_fresh :
    (now conn t : ℕ) (rest : List PooledConn) (p : ConnPool)
    → p.idle ≡ (conn, t) ∷ rest
    → ltb (t + idle_conn_timeout) now ≡ false
    → act now takes p ≡ some (record p { idle = rest; lent = conn ∷ p.lent })
unfolding act take_idle
takes_fresh now conn t rest p e fresh = ap (take_idle now p) e ∙ rw (fresh, take_idle) refl

-- What comes of the connections that were lent out before a call: they stay as they are, or the other
-- threads change them from a state on in which the pool is full and the call waits.
abbrev pub Others : Stream → ConnPool → List ℕ → Type 0
Others net p lent =
    (lent ≡ p.lent)
    ⊎ ((start : ConnPool) × Reaches p start
        × (start.lent ≡ p.lent)
        × (start.max ≤ start.total)
        × (0 < start.waiting)
        × (lent ≡ (run_others net.others start).lent))

Others-Reaches :
    (net : Stream) (p q : ConnPool) (lent : List ℕ)
    → Reaches p q
    → q.lent ≡ p.lent
    → Others net q lent
    → Others net p lent
Others-Reaches net p q lent reached same (inl kept) = inl (kept ∙ same)
Others-Reaches net p q lent reached same (inr (start, reached', same', full, waits', kept)) =
    inr (start, Reaches-trans p q start reached reached', same' ∙ same, full, waits', kept)

-- What acquire does to the connections that are lent out: it adds the one that it returns.
abbrev LentAfter : Stream → ConnPool → ConnPool × Option (ℕ × Bool) → Type 0
LentAfter net p (q, none) = Others net p q.lent
LentAfter net p (q, some (conn, reused)) =
    (lent : List ℕ) × (q.lent ≡ conn ∷ lent) × Others net p lent

LentAfter-Reaches :
    (net : Stream) (p q : ConnPool) (r : ConnPool × Option (ℕ × Bool))
    → Reaches p q
    → q.lent ≡ p.lent
    → LentAfter net q r
    → LentAfter net p r
LentAfter-Reaches net p q (r, none) reached same kept = Others-Reaches net p q _ reached same kept
LentAfter-Reaches net p q (r, some (conn, reused)) reached same (lent, e, kept) =
    (lent, e, Others-Reaches net p q lent reached same kept)

run_others-Reaches : (others : List (ℕ × Action)) (p : ConnPool) → Reaches p (run_others others p)
unfolding run_others run
run_others-Reaches [] p = ([], refl)
run_others-Reaches ((now, action) ∷ others) p = elim (Option-cases (act now action p)) [
  | inl e ↦ rw (e, run_others) (run_others-Reaches others p)
  | inr (q, e) ↦
      rw (e, run_others)
        (Reaches-trans p q _ (Reaches-act now action p q e) (run_others-Reaches others q))
]

give_up_lent :
    (p : ConnPool) (waiting : ℕ) (q : ConnPool) → give_up p waiting ≡ some q → q.lent ≡ p.lent
unfolding give_up
give_up_lent p zero q e = cc
give_up_lent p (suc waiting) q e = ground (arith, e)

stop_waiting-Reaches :
    (p : ConnPool) → Reaches p (stop_waiting p) × ((stop_waiting p).lent ≡ p.lent)
unfolding stop_waiting act run
stop_waiting-Reaches p = elim (Option-cases (give_up p p.waiting)) [
  | inl e ↦ rw (e, stop_waiting) (([], refl), refl)
  | inr (q, e) ↦
      rw (e, stop_waiting)
        (Reaches-act 0 gives_up p q (unfold act in e), give_up_lent p p.waiting q e)
]

-- What the second select does to the connections that are lent out.
abbrev Received : ConnPool → ConnPool × Option (ℕ × Bool) → Type 0
Received p (q, none) = q.lent ≡ p.lent
Received p (q, some (conn, reused)) = q.lent ≡ conn ∷ p.lent

wake_lent :
    (p : ConnPool) (waiting conn t : ℕ) (rest : List PooledConn) (q : ConnPool)
    → wake p waiting ((conn, t) ∷ rest) ≡ some q
    → q.lent ≡ conn ∷ p.lent
unfolding wake
wake_lent p zero conn t rest q e = cc
wake_lent p (suc waiting) conn t rest q e = ground (arith, e)

receive-Reaches :
    (done : Bool) (p : ConnPool) (idle : List PooledConn)
    → p.idle ≡ idle
    → Reaches p (receive done p idle).0 × Received p (receive done p idle)
unfolding receive run
receive-Reaches done p [] e = stop_waiting-Reaches p
receive-Reaches true p ((conn, t) ∷ rest) e = stop_waiting-Reaches p
receive-Reaches false p ((conn, t) ∷ rest) e =
    elim (Option-cases (wake p p.waiting ((conn, t) ∷ rest))) [
      | inl f ↦ rw (f, receive) (([], refl), refl)
      | inr (q, f) ↦
          let woken : act 0 wakes p ≡ some q = unfold act in (ap (wake p p.waiting) e ∙ f) in
          rw (f, receive) (Reaches-act 0 wakes p q woken, wake_lent p p.waiting conn t rest q f)
    ]

Received-LentAfter :
    (net : Stream) (p q : ConnPool) (r : ConnPool × Option (ℕ × Bool))
    → Others net p q.lent
    → Received q r
    → LentAfter net p r
Received-LentAfter net p q (r, none) kept e = subst (Others net p) (sym e) kept
Received-LentAfter net p q (r, some (conn, reused)) kept e = (q.lent, e, kept)

wait_idle-Reaches :
    (net : Stream) (p : ConnPool)
    → ltb p.total p.max ≡ false
    → Reaches p (wait_idle net p).0 × LentAfter net p (wait_idle net p)
unfolding wait_idle
wait_idle-Reaches net p full =
    let start : ConnPool = record p { waiting = p.waiting + 1 } in
    let q = run_others net.others start in
    let begun : Reaches p start = Reaches-act 0 waits p start (unfold act in rw full refl) in
    let (received, lent) = receive-Reaches net.done q q.idle refl in
    (
      Reaches-trans p q _ (Reaches-trans p start q begun (run_others-Reaches net.others start))
          received,
      Received-LentAfter net p q (receive net.done q q.idle)
          (inr (start, begun, refl, ground arith, omega arith, refl)) lent,
    )

acquire-Reaches :
    (now : ℕ) (net : Stream) (p : ConnPool) (idle : List PooledConn)
    → p.idle ≡ idle
    → Reaches p (acquire now net p idle).0 × LentAfter net p (acquire now net p idle)
unfolding acquire run
acquire-Reaches now net p [] e = elim (Bool-cases (ltb p.total p.max)) [
  | inr full ↦ rw (full, acquire) (wait_idle-Reaches net p full)
  | inl room ↦ elim (Bool-cases net.dials) [
    | inl d ↦ rw (room, d, acquire) (reserves-dialed now p room, (p.lent, refl, inl refl))
    | inr d ↦ rw (room, d, acquire) (([], refl), inl refl)
  ]
]
acquire-Reaches now net p ((conn, t) ∷ rest) e =
    elim (Bool-cases (ltb (t + idle_conn_timeout) now)) [
      | inl old ↦
          let p' : ConnPool = record p { idle = rest; total = p.total - 1 } in
          let dropped = takes-drops now conn t rest p e old in
          let (reached, kept) = acquire-Reaches now net p' rest refl in
          rw (old, acquire)
            (
              Reaches-trans p p' _ dropped reached,
              LentAfter-Reaches net p p' (acquire now net p' rest) dropped refl kept,
            )
      | inr fresh ↦
          rw (fresh, acquire)
            (
              Reaches-act now takes p _ (takes_fresh now conn t rest p e fresh),
              (p.lent, refl, inl refl),
            )
    ]

lends_head : (conn : ℕ) (lent : List ℕ) → lends conn (conn ∷ lent) ≡ true
unfolding lends
lends_head conn lent = ground arith

without_conn_head : (conn : ℕ) (lent : List ℕ) → without_conn conn (conn ∷ lent) ≡ lent
unfolding without_conn
without_conn_head conn lent = ground arith

releases_act :
    (now conn : ℕ) (healthy : Bool) (p : ConnPool) (lent : List ℕ)
    → p.lent ≡ conn ∷ lent
    → act now (releases conn healthy) p ≡ some (release now conn healthy p)
unfolding act
releases_act now conn healthy p lent e = rw (ap (lends conn) e ∙ lends_head conn lent, act) refl

-- release behind a Close: the connection is counted until `total--`.
closed-Reaches :
    (now conn : ℕ) (healthy : Bool) (p : ConnPool) (lent : List ℕ)
    → p.lent ≡ conn ∷ lent
    → release now conn healthy p
      ≡ record p { lent = without_conn conn p.lent; closing = p.closing + 1 }
    → Reaches p (record p { lent = without_conn conn p.lent; total = p.total - 1 })
unfolding act drop_closed
closed-Reaches now conn healthy p lent e f =
    let closed : ConnPool = record p { lent = without_conn conn p.lent; closing = p.closing + 1 } in
    Reaches-trans p closed _
      (Reaches-act now (releases conn healthy) p closed
        (releases_act now conn healthy p lent e ∙ ap some f))
      (Reaches-act now drops closed _ (ap (drop_closed closed) {y = suc p.closing} (omega arith)))

release_all-Reaches :
    (now conn : ℕ) (healthy : Bool) (p : ConnPool) (lent : List ℕ)
    → p.lent ≡ conn ∷ lent
    → Reaches p (release_all now conn healthy p) × ((release_all now conn healthy p).lent ≡ lent)
unfolding release_all release
release_all-Reaches now conn false p lent e = (
  closed-Reaches now conn false p lent e refl,
  ap (without_conn conn) e ∙ without_conn_head conn lent,
)
release_all-Reaches now conn true p lent e =
    let back = ap (without_conn conn) e ∙ without_conn_head conn lent in
    elim (Bool-cases (ltb (length p.idle) p.max)) [
      | inl room ↦
          rw (room, release_all)
            (
              Reaches-act now (releases conn true) p _
                  (releases_act now conn true p lent e ∙ rw (room, release) refl),
              back,
            )
      | inr full ↦
          rw (full, release_all)
            (closed-Reaches now conn true p lent e (rw (full, release) refl), back)
    ]

exchange_acquired-Reaches :
    (dns : DnsLibrary) (net : Stream) (now : ℕ) (query : Msg) (p q : ConnPool)
    (acquired : Option (ℕ × Bool))
    → LentAfter net p (q, acquired)
    → Reaches q (exchange_acquired dns net now query q acquired).0
      × Others net p (exchange_acquired dns net now query q acquired).0.lent
unfolding exchange_acquired run
exchange_acquired-Reaches dns net now query p q none kept = (([], refl), kept)
exchange_acquired-Reaches dns net now query p q (some (conn, reused)) (lent, e, kept) =
    elim (Result-cases (exchange_on_conn dns net conn query)) [
      | inl (m, f) ↦
          let (reached, back) = release_all-Reaches now conn true q lent e in
          rw (f, exchange_acquired) (reached, subst (Others net p) (sym back) kept)
      | inr (x, f) ↦
          let (reached, back) = release_all-Reaches now conn false q lent e in
          rw (f, exchange_acquired) (reached, subst (Others net p) (sym back) kept)
    ]

-- What a call of Exchange over a stream does to the connection pool, with what other threads do while
-- it waits for a connection, is what some schedule of the pool's actions does. Afterwards the
-- connections that are lent out are those from before, or, if the call has waited, what the other
-- threads made of them: the call has given back or closed what it acquired, whether it was idle, was
-- dialed or came to the call while it waited, and whether or not the exchange on it failed.
pub exchange-Reaches :
    (dns : DnsLibrary) (net : Stream) (now : ℕ) (p : ConnPool) (query : Msg)
    → Reaches p (exchange dns net now p query).0
      × Others net p (exchange dns net now p query).0.lent
unfolding exchange
exchange-Reaches dns net now p query =
    let (reached, kept) = acquire-Reaches now net p p.idle refl in
    let (q, acquired) = acquire now net p p.idle in
    let (reached', kept') = exchange_acquired-Reaches dns net now query p q acquired kept in
    (Reaches-trans p q _ reached reached', kept')
