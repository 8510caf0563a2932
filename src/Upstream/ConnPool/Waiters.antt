-- ===== src/Upstream/ConnPool/Waiters.antt =====
-- internal/upstream/conn_pool.go: a thread that waits for a connection is not told that the pool
-- may open one again.
use dns_over_minecraft.Prelude.{
  ℕ, zero, suc, ◌<◌, ◌≡◌, refl, arith, true, false, [], ◌∷◌, ◌==◌, none, some, ◌⊎◌, inl, inr,
}
use dns_over_minecraft.Upstream.ConnPool.{
  ConnPool, Action, takes, reserves, dialed, dial_failed, waits, wakes, gives_up, drops, releases,
  lends, without_conn, take_idle, dial_done, dial_error, wake, drop_closed, release, act, run,
}

-- A pool with one connection, which is lent out, and some threads that wait for it.
abbrev pub one_lent : ℕ → ℕ → ℕ → ℕ → ConnPool
one_lent max waiting next_conn conn = record {
  idle = [];
  total = 1;
  max = max;
  lent = conn ∷ [];
  dialing = 0;
  closing = 0;
  waiting = waiting;
  next_conn = next_conn;
}

abbrev pub none_left : ℕ → ℕ → ℕ → ConnPool
none_left max waiting next_conn = record {
  idle = [];
  total = 0;
  max = max;
  lent = [];
  dialing = 0;
  closing = 0;
  waiting = waiting;
  next_conn = next_conn;
}

stranded :
    (max waiting next_conn later : ℕ) (action : Action)
    → 0 < max
    → (action ≡ reserves)
      ⊎ ((action ≡ gives_up) ⊎ (act later action (none_left max waiting next_conn) ≡ none))
unfolding act lends take_idle dial_done dial_error wake drop_closed
stranded max waiting next_conn later takes h = inr (inr refl)
stranded max waiting next_conn later reserves h = inl refl
stranded max waiting next_conn later dialed h = inr (inr refl)
stranded max waiting next_conn later dial_failed h = inr (inr refl)
stranded max waiting next_conn later waits h = inr (inr (ground (arith, h)))
stranded max zero next_conn later wakes h = inr (inr refl)
stranded max (suc waiting) next_conn later wakes h = inr (inr refl)
stranded max waiting next_conn later gives_up h = inr (inl refl)
stranded max waiting next_conn later drops h = inr (inr refl)
stranded max waiting next_conn later (releases conn healthy) h = inr (inr refl)

-- When the one connection of a pool is released after a failed exchange, the pool is left with no
-- connection and room for new ones, and the threads that wait still wait: nothing but a new call of
-- acquire, or the end of a waiting thread's context, can happen then.
pub run-one_lent :
    (max waiting next_conn conn now later : ℕ) (action : Action)
    → 0 < max
    → (run ((now, releases conn false) ∷ (now, drops) ∷ []) (one_lent max waiting next_conn conn)
        ≡ some (none_left max waiting next_conn))
      × ((action ≡ reserves)
          ⊎ ((action ≡ gives_up) ⊎ (act later action (none_left max waiting next_conn) ≡ none)))
unfolding run act release lends without_conn drop_closed
run-one_lent max waiting next_conn conn now later action h =
    let same : (conn == conn) ≡ true = ground arith in
    (
      rw (same, run, act, release, lends, without_conn) refl,
      stranded max waiting next_conn later action h,
    )
