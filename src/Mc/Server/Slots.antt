-- ===== src/Mc/Server/Slots.antt =====
-- internal/mc/server.go: the accept loop of ListenAndServe and its slots, as a step relation on the
-- connections that are being served and rejected, each in its own thread.
use dns_over_minecraft.Prelude.{
  ℕ, ◌+◌, ◌-◌, ◌<◌, ◌≤◌, ◌≡◌, refl, arith, ltb, ◌==◌, if◌then◌else◌, Bool-cases, inl, inr,
}

-- `slots` is how many are taken in `connSlots`, which is nil if `max_connections` is 0.
pub record Listener : Type 0 where
  pub max_connections : ℕ
  pub slots : ℕ
  pub serving : ℕ
  pub rejecting : ℕ

unfoldable pub listening : ℕ → Listener
listening max_connections = record {
  max_connections = max_connections;
  slots = 0;
  serving = 0;
  rejecting = 0;
}

-- A connection is accepted: it takes a slot, if there are slots, or is rejected if all are taken.
unfoldable pub accept_connection : Listener → Listener
accept_connection l =
    if l.max_connections == 0
    then record l { serving = l.serving + 1 }
    else if ltb l.slots l.max_connections
    then record l { slots = l.slots + 1; serving = l.serving + 1 }
    else record l { rejecting = l.rejecting + 1 }

-- handleConn returns, and its slot is given back.
unfoldable pub finish_connection : Listener → Listener
finish_connection l = record l {
  slots = if l.max_connections == 0 then l.slots else l.slots - 1;
  serving = l.serving - 1;
}

-- A step of the loop, or the end of one of its threads.
pub data Step : Listener → Listener → Type 0 where
  accepts : (l : Listener) → Step l (accept_connection l)
  finishes : (l : Listener) → 0 < l.serving → Step l (finish_connection l)
  rejects : (l : Listener) → 0 < l.rejecting → Step l (record l { rejecting = l.rejecting - 1 })

pub data Reachable (max_connections : ℕ) : Listener → Type 0 where
  starts : Reachable max_connections (listening max_connections)
  steps : {l m : Listener} → Reachable max_connections l → Step l m → Reachable max_connections m

-- The slots count the connections that are served, and those are within the limit, if there is one.
pub record IsWithinSlots (max_connections : ℕ) (l : Listener) : Type 0 where
  pub limit_kept : l.max_connections ≡ max_connections
  pub counted : 0 < max_connections → l.slots ≡ l.serving
  pub bounded : 0 < max_connections → l.serving ≤ max_connections

Step-IsWithinSlots :
    (max_connections : ℕ) (l m : Listener)
    → Step l m
    → IsWithinSlots max_connections l
    → IsWithinSlots max_connections m
unfolding accept_connection finish_connection
Step-IsWithinSlots n l m (accepts _) v = elim (Bool-cases (l.max_connections == 0)) [
  | inl open_ended ↦
      rw (open_ended, accept_connection)
        (record {
          limit_kept = v.limit_kept;
          counted = λ h. absurd (ground (arith, v.limit_kept));
          bounded = λ h. absurd (ground (arith, v.limit_kept));
        })
  | inr limited ↦ elim (Bool-cases (ltb l.slots l.max_connections)) [
    | inl room ↦
        rw (limited, room, accept_connection)
          (record {
            limit_kept = v.limit_kept;
            counted = λ h. omega (arith, v.counted h);
            bounded = λ h. ground (arith, v.counted h, v.limit_kept);
          })
    | inr full ↦
        rw (limited, full, accept_connection)
          (record { limit_kept = v.limit_kept; counted = v.counted; bounded = v.bounded })
  ]
]
Step-IsWithinSlots n l m (finishes _ some_served) v = record {
  limit_kept = v.limit_kept;
  counted = λ h. ground (arith, v.counted h, v.limit_kept);
  bounded = λ h. omega (arith, v.bounded h);
}
Step-IsWithinSlots n l m (rejects _ some_rejected) v = record {
  limit_kept = v.limit_kept;
  counted = v.counted;
  bounded = v.bounded;
}

-- In every state that the accept loop and its threads can reach, if there is a limit above 0, no
-- more connections are served than the limit, and the slots that are taken are exactly theirs.
pub Reachable-IsWithinSlots :
    (max_connections : ℕ) (l : Listener)
    → Reachable max_connections l
    → IsWithinSlots max_connections l
unfolding listening
Reachable-IsWithinSlots n l starts = record {
  limit_kept = refl;
  counted = λ h. refl;
  bounded = λ h. omega arith;
}
Reachable-IsWithinSlots n m (steps {l = l} before step) =
    Step-IsWithinSlots n l m step (Reachable-IsWithinSlots n l before)
