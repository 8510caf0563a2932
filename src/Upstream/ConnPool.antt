-- ===== src/Upstream/ConnPool.antt =====
-- internal/upstream/conn_pool.go: the bounded pool of connections of one upstream, as a system of
-- the threads that use it. An action is what a thread does between two waits for the mutex, for the
-- channel `idle`, for a dial or for its caller; a schedule is a list of actions with their times.
-- A connection is its number.
pub mod Invariant
pub mod Waiters
use dns_over_minecraft.Prelude.{
  ℕ, zero, suc, ◌+◌, ◌-◌, ◌*◌, ◌^◌, Bool, true, false, List, [], ◌∷◌, ◌++◌, ltb, ◌==◌,
  if◌then◌else◌, Option, none, some, length,
}

abbrev pub default_conn_pool_size : ℕ
default_conn_pool_size = 4

-- 30 s, in nanoseconds.
abbrev pub idle_conn_timeout : ℕ
idle_conn_timeout = 30 * 10 ^ 9

-- `conn` and `lastUsed`.
abbrev pub PooledConn : Type 0
PooledConn = ℕ × ℕ

-- The pool (`idle`, `total`, `max`), and where its users are: the connections that are lent out,
-- how many dials run, how many connections are closed and still counted in `total`, and how many
-- threads wait at the second select of acquire.
pub record ConnPool : Type 0 where
  pub idle : List PooledConn
  pub total : ℕ
  pub max : ℕ
  pub lent : List ℕ
  pub dialing : ℕ
  pub closing : ℕ
  pub waiting : ℕ
  pub next_conn : ℕ

-- A size of 0 stands for any that is not positive.
unfoldable pub new_conn_pool : ℕ → ConnPool
new_conn_pool size = record {
  idle = [];
  total = 0;
  max = if size == 0 then default_conn_pool_size else size;
  lent = [];
  dialing = 0;
  closing = 0;
  waiting = 0;
  next_conn = 0;
}

-- takes: the first select of acquire; reserves: it counts a new connection; dialed, dial_failed:
-- the dial ends; waits, wakes, gives_up: its second select; releases: release, with whether the
-- connection is healthy; drops: `total--` behind a Close.
pub data Action : Type 0 where
  takes reserves dialed dial_failed waits wakes gives_up drops : Action
  releases : ℕ → Bool → Action

unfoldable pub lends : ℕ → List ℕ → Bool
lends conn [] = false
lends conn (c ∷ lent) = if c == conn then true else lends conn lent

unfoldable pub without_conn : ℕ → List ℕ → List ℕ
without_conn conn [] = []
without_conn conn (c ∷ lent) = if c == conn then lent else c ∷ without_conn conn lent

-- The first select of acquire, on `idle`: a connection that was idle for too long is closed.
unfoldable pub take_idle : ℕ → ConnPool → List PooledConn → Option ConnPool
take_idle now p [] = none
take_idle now p ((conn, last_used) ∷ rest) =
    if ltb (last_used + idle_conn_timeout) now
    then some (record p { idle = rest; closing = p.closing + 1 })
    else some (record p { idle = rest; lent = conn ∷ p.lent })

-- The end of one of the dials, on their number.
unfoldable pub dial_done : ConnPool → ℕ → Option ConnPool
dial_done p zero = none
dial_done p (suc dialing) =
    some (record p { dialing = dialing; lent = p.next_conn ∷ p.lent; next_conn = p.next_conn + 1 })

unfoldable pub dial_error : ConnPool → ℕ → Option ConnPool
dial_error p zero = none
dial_error p (suc dialing) = some (record p { dialing = dialing; total = p.total - 1 })

-- The second select of acquire, on the number of threads that wait: it gets a connection, however
-- long that was idle, or the context is done.
unfoldable pub wake : ConnPool → ℕ → List PooledConn → Option ConnPool
wake p zero idle = none
wake p (suc waiting) [] = none
wake p (suc waiting) ((conn, last_used) ∷ rest) =
    some (record p { idle = rest; waiting = waiting; lent = conn ∷ p.lent })

unfoldable pub give_up : ConnPool → ℕ → Option ConnPool
give_up p zero = none
give_up p (suc waiting) = some (record p { waiting = waiting })

unfoldable pub drop_closed : ConnPool → ℕ → Option ConnPool
drop_closed p zero = none
drop_closed p (suc closing) = some (record p { closing = closing; total = p.total - 1 })

-- release, of a connection that is lent out: the channel holds `max` connections.
unfoldable pub release : ℕ → ℕ → Bool → ConnPool → ConnPool
unfolding without_conn
release now conn healthy p =
    let returned = without_conn conn p.lent in
    let closed : ConnPool = record p { lent = returned; closing = p.closing + 1 } in
    if healthy
    then (if ltb (length p.idle) p.max
        then record p { lent = returned; idle = p.idle ++ ((conn, now) ∷ []) }
        else closed)
    else closed

-- An action at a time, none where no thread can take it.
unfoldable pub act : ℕ → Action → ConnPool → Option ConnPool
unfolding lends take_idle dial_done dial_error wake give_up drop_closed release
act now takes p = take_idle now p p.idle
act now reserves p =
    if ltb p.total p.max
    then some (record p { total = p.total + 1; dialing = p.dialing + 1 })
    else none
act now dialed p = dial_done p p.dialing
act now dial_failed p = dial_error p p.dialing
act now waits p = if ltb p.total p.max then none else some (record p { waiting = p.waiting + 1 })
act now wakes p = wake p p.waiting p.idle
act now gives_up p = give_up p p.waiting
act now drops p = drop_closed p p.closing
act now (releases conn healthy) p =
    if lends conn p.lent then some (release now conn healthy p) else none

-- A schedule of actions with their times, none where an action cannot be taken.
unfoldable pub run : List (ℕ × Action) → ConnPool → Option ConnPool
unfolding act
run [] p = some p
run ((now, action) ∷ schedule) p = elim (act now action p) [ none ↦ none | some q ↦ run schedule q ]
