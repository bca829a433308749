-- ===== src/Djinn/Cascade.antt =====
-- The task that follows a lease manager's broadcasts (`spawn_cascade` in
-- djinn/crates/coordin8-djinn/src/services.rs). A handler may spawn a task; the tasks run in the order
-- of the events.
use coordin.Common.{ℕ, List, [], ◌∷◌, Result, ok, err}
use coordin.Lease.{LeaseReclaimed}

-- What `recv` gives a subscriber of a broadcast channel.
pub data RecvError : Type 0 where
  lagged : ℕ → RecvError
  closed : RecvError

module _ {S : Type 0} (handler : LeaseReclaimed → S → S) where
  -- The loop of `spawn_cascade`.
  unfoldable pub cascade : List (Result RecvError LeaseReclaimed) → S → S
  cascade [] s = s
  cascade (ok event ∷ rest) s = cascade rest (handler event s)
  cascade (err (lagged n) ∷ rest) s = cascade rest s
  cascade (err closed ∷ rest) s = s
