-- ===== src/Upstream/ConnPool/Invariant.antt =====
-- internal/upstream/conn_pool.go: `total` counts every connection, there are at most `max`, and no
-- connection is used twice at a time.
use dns_over_minecraft.Prelude.{
  ℕ, zero, suc, ◌+◌, ◌≤◌, ◌<◌, ◌≡◌, refl, ap, arith, Bool, true, false, List, [], ◌∷◌, ◌++◌, ltb,
  ◌==◌, if◌then◌else◌, Option, none, some, length, length-append, Option-cases, Bool-cases, inl,
  inr, ◌∙◌, subst,
}
use dns_over_minecraft.Upstream.ConnPool.{
  idle_conn_timeout, PooledConn, ConnPool, new_conn_pool, Action, takes, reserves, dialed,
  dial_failed, waits, wakes, gives_up, drops, releases, lends, without_conn, take_idle, dial_done,
  dial_error, wake, give_up, drop_closed, release, act, run,
}

-- How often a connection is idle, and how often it is lent out.
pub idle_count : ℕ → List PooledConn → ℕ
idle_count c [] = 0
idle_count c ((d, t) ∷ idle) = (if d == c then 1 else 0) + idle_count c idle

pub lent_count : ℕ → List ℕ → ℕ
lent_count c [] = 0
lent_count c (d ∷ lent) = (if d == c then 1 else 0) + lent_count c lent

-- `total` counts what is idle, lent out, being dialed or being closed, and is at most `max`; each
-- connection is in one place at most, and has a number that was given out.
pub record IsSound (p : ConnPool) : Type 0 where
  pub counted : p.total ≡ length p.idle + length p.lent + p.dialing + p.closing
  pub bounded : p.total ≤ p.max
  pub exclusive : (c : ℕ) → idle_count c p.idle + lent_count c p.lent ≤ 1
  pub numbered : (c : ℕ) → p.next_conn ≤ c → idle_count c p.idle + lent_count c p.lent ≡ 0

idle_count-append :
    (c d t : ℕ) (idle : List PooledConn)
    → idle_count c (idle ++ ((d, t) ∷ [])) ≡ idle_count c idle + (if d == c then 1 else 0)
unfolding idle_count
idle_count-append c d t [] = omega arith
idle_count-append c d t ((e, u) ∷ idle) = omega (arith, idle_count-append c d t idle)

lent_count-without_conn :
    (c d : ℕ) (lent : List ℕ)
    → lends d lent ≡ true
    → lent_count c (without_conn d lent) + (if d == c then 1 else 0) ≡ lent_count c lent
unfolding lent_count without_conn lends
lent_count-without_conn c d [] h = cc
lent_count-without_conn c d (e ∷ lent) h = ground (arith, lent_count-without_conn c d lent)

length-without_conn :
    (d : ℕ) (lent : List ℕ) → lends d lent ≡ true → length (without_conn d lent) + 1 ≡ length lent
unfolding without_conn lends
length-without_conn d [] h = cc
length-without_conn d (e ∷ lent) h = ground (arith, length-without_conn d lent)

pub new_conn_pool-IsSound : (size : ℕ) → IsSound (new_conn_pool size)
unfolding new_conn_pool idle_count lent_count
new_conn_pool-IsSound size = record {
  counted = refl;
  bounded = omega arith;
  exclusive = λ c. omega arith;
  numbered = λ c h. refl;
}

-- What an action leaves is sound, where it can be taken.
abbrev pub SoundAfter : Option ConnPool → Type 0
SoundAfter none = Unit
SoundAfter (some q) = IsSound q

take_idle_sound :
    (now : ℕ) (p : ConnPool) (idle : List PooledConn)
    → IsSound p
    → p.idle ≡ idle
    → SoundAfter (take_idle now p idle)
unfolding take_idle
take_idle_sound now p [] v e = tt
take_idle_sound now p ((conn, t) ∷ rest) v e =
    let here : (c : ℕ) → idle_count c p.idle ≡ (if conn == c then 1 else 0) + idle_count c rest =
      λ c. ap (idle_count c) e ∙ unfold idle_count in refl in
    elim (Bool-cases (ltb (t + idle_conn_timeout) now)) [
      | inl old ↦
          rw (old, take_idle)
            (record {
              counted = omega (arith, v.counted, ap length e);
              bounded = v.bounded;
              exclusive = λ c. omega (arith, v.exclusive c, here c);
              numbered = λ c h. omega (arith, v.numbered c h, here c);
            })
      | inr fresh ↦
          rw (fresh, take_idle)
            (record {
              counted = omega (arith, v.counted, ap length e);
              bounded = v.bounded;
              exclusive = λ c. unfold lent_count in omega (arith, v.exclusive c, here c);
              numbered = λ c h. unfold lent_count in omega (arith, v.numbered c h, here c);
            })
    ]

dial_done_sound :
    (p : ConnPool) (dialing : ℕ)
    → IsSound p
    → p.dialing ≡ dialing
    → SoundAfter (dial_done p dialing)
unfolding dial_done lent_count
dial_done_sound p zero v e = tt
dial_done_sound p (suc dialing) v e = record {
  counted = omega (arith, v.counted);
  bounded = v.bounded;
  exclusive = λ c. ground (arith, v.exclusive c, v.numbered c);
  numbered = λ c h. ground (arith, v.numbered c);
}

dial_error_sound :
    (p : ConnPool) (dialing : ℕ)
    → IsSound p
    → p.dialing ≡ dialing
    → SoundAfter (dial_error p dialing)
unfolding dial_error
dial_error_sound p zero v e = tt
dial_error_sound p (suc dialing) v e = record {
  counted = omega (arith, v.counted);
  bounded = omega (arith, v.bounded);
  exclusive = v.exclusive;
  numbered = v.numbered;
}

wake_sound :
    (p : ConnPool) (waiting : ℕ) (idle : List PooledConn)
    → IsSound p
    → p.idle ≡ idle
    → SoundAfter (wake p waiting idle)
unfolding wake lent_count
wake_sound p zero idle v e = tt
wake_sound p (suc waiting) [] v e = tt
wake_sound p (suc waiting) ((conn, t) ∷ rest) v e =
    let here : (c : ℕ) → idle_count c p.idle ≡ (if conn == c then 1 else 0) + idle_count c rest =
      λ c. ap (idle_count c) e ∙ unfold idle_count in refl in
    record {
      counted = omega (arith, v.counted, ap length e);
      bounded = v.bounded;
      exclusive = λ c. omega (arith, v.exclusive c, here c);
      numbered = λ c h. omega (arith, v.numbered c h, here c);
    }

drop_closed_sound :
    (p : ConnPool) (closing : ℕ)
    → IsSound p
    → p.closing ≡ closing
    → SoundAfter (drop_closed p closing)
unfolding drop_closed
drop_closed_sound p zero v e = tt
drop_closed_sound p (suc closing) v e = record {
  counted = omega (arith, v.counted);
  bounded = omega (arith, v.bounded);
  exclusive = v.exclusive;
  numbered = v.numbered;
}

give_up_sound : (p : ConnPool) (waiting : ℕ) → IsSound p → SoundAfter (give_up p waiting)
unfolding give_up
give_up_sound p zero v = tt
give_up_sound p (suc waiting) v = record {
  counted = v.counted;
  bounded = v.bounded;
  exclusive = v.exclusive;
  numbered = v.numbered;
}

-- A connection that is released finds room in the channel.
release_room :
    (p : ConnPool) (conn : ℕ) → IsSound p → lends conn p.lent ≡ true → length p.idle < p.max
release_room p conn v h = omega (arith, v.counted, v.bounded, length-without_conn conn p.lent h)

closed-IsSound :
    (p : ConnPool) (conn : ℕ)
    → IsSound p
    → lends conn p.lent ≡ true
    → IsSound (record p { lent = without_conn conn p.lent; closing = p.closing + 1 })
closed-IsSound p conn v h = record {
  counted = omega (arith, v.counted, length-without_conn conn p.lent h);
  bounded = v.bounded;
  exclusive = λ c. omega (arith, v.exclusive c, lent_count-without_conn c conn p.lent h);
  numbered = λ c k. omega (arith, v.numbered c k, lent_count-without_conn c conn p.lent h);
}

release-IsSound :
    (now : ℕ) (p : ConnPool) (conn : ℕ) (healthy : Bool)
    → IsSound p
    → lends conn p.lent ≡ true
    → IsSound (release now conn healthy p)
unfolding release
release-IsSound now p conn false v h = closed-IsSound p conn v h
release-IsSound now p conn true v h =
    let room : ltb (length p.idle) p.max ≡ true = ground (arith, release_room p conn v h) in
    rw (room, release)
      (record {
        counted = omega (
          arith,
          v.counted,
          length-without_conn conn p.lent h,
          length-append p.idle ((conn, now) ∷ []),
        );
        bounded = v.bounded;
        exclusive = λ c. omega (
          arith,
          v.exclusive c,
          lent_count-without_conn c conn p.lent h,
          idle_count-append c conn now p.idle,
        );
        numbered = λ c k. omega (
          arith,
          v.numbered c k,
          lent_count-without_conn c conn p.lent h,
          idle_count-append c conn now p.idle,
        );
      })

act_sound : (now : ℕ) (action : Action) (p : ConnPool) → IsSound p → SoundAfter (act now action p)
unfolding act
act_sound now takes p v = take_idle_sound now p p.idle v refl
act_sound now reserves p v = elim (Bool-cases (ltb p.total p.max)) [
  | inl e ↦
      rw (e, act)
        (record {
          counted = omega (arith, v.counted);
          bounded = ground (arith, e);
          exclusive = v.exclusive;
          numbered = v.numbered;
        })
  | inr e ↦ rw (e, act) tt
]
act_sound now dialed p v = dial_done_sound p p.dialing v refl
act_sound now dial_failed p v = dial_error_sound p p.dialing v refl
act_sound now waits p v = elim (Bool-cases (ltb p.total p.max)) [
  | inl e ↦ rw (e, act) tt
  | inr e ↦
      rw (e, act)
        (record {
          counted = v.counted;
          bounded = v.bounded;
          exclusive = v.exclusive;
          numbered = v.numbered;
        })
]
act_sound now wakes p v = wake_sound p p.waiting p.idle v refl
act_sound now gives_up p v = give_up_sound p p.waiting v
act_sound now drops p v = drop_closed_sound p p.closing v refl
act_sound now (releases conn healthy) p v = elim (Bool-cases (lends conn p.lent)) [
  | inl e ↦ rw (e, act) (release-IsSound now p conn healthy v e)
  | inr e ↦ rw (e, act) tt
]

run_sound : (schedule : List (ℕ × Action)) (p : ConnPool) → IsSound p → SoundAfter (run schedule p)
unfolding run
run_sound [] p v = v
run_sound ((now, action) ∷ schedule) p v = elim (Option-cases (act now action p)) [
  | inl e ↦ rw (e, run) tt
  | inr (q, e) ↦ rw (e, run) (run_sound schedule q (subst SoundAfter e (act_sound now action p v)))
]

-- After any schedule of any number of threads on a new pool, `total` counts exactly the connections
-- that are idle, lent out, being dialed or being closed, they are at most `max`, no connection is
-- idle and lent out or lent out twice at a time, and a healthy connection that is released always
-- finds room in the channel.
pub run-IsSound :
    (size : ℕ) (schedule : List (ℕ × Action)) (p : ConnPool)
    → run schedule (new_conn_pool size) ≡ some p
    → IsSound p × ((conn : ℕ) → lends conn p.lent ≡ true → length p.idle < p.max)
run-IsSound size schedule p e =
    let v : IsSound p =
      subst SoundAfter e (run_sound schedule (new_conn_pool size) (new_conn_pool-IsSound size)) in
    (v, λ conn h. release_room p conn v h)
