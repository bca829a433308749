-- ===== src/Space/Waiting.antt =====
-- The methods `read` and `take` of the Space, which may wait for a tuple
-- (djinn/crates/coordin8-space/src/manager.rs). What a caller that waits receives is a list of
-- wake-ups, which ends where the time is up or the channel is closed.
use coordin.Common.{
  String, Bool, Option, none, some, List, [], ◌∷◌, Result, ok, err, pure, ◌>>=◌, ◌>>◌,
  if◌then◌else◌,
}
use coordin.Common.Dict.{Dict}
use coordin.Error.{Error, Method}
use coordin.Lease.Leasing.{Leasing}
use coordin.Registry.Matcher.{parse_template, matches}
use coordin.Space.{TupleRecord}
use coordin.Space.Manager.{SpaceManager, TxnEnlister, ensure_enlisted, try_read, try_take}

-- A wake-up: a broadcast tuple or a lag, and what others did to the manager since the last one.
pub record Wakeup (L N : Type 0) : Type 0 where
  pub event : Option TupleRecord
  pub since : SpaceManager L N → SpaceManager L N

-- What an attempt gives, with the state it leaves.
abbrev pub Answer : Type 0 → Type 0
Answer S = Result Error (Option TupleRecord) × S

-- An attempt while waiting: unless it finds a tuple, the loop goes on.
abbrev pub found_or : {S : Type 0} → (S → Answer S) → Answer S → Answer S
found_or later (ok (some r), s) = (ok (some r), s)
found_or later (ok none, s) = later s
found_or later (err e, s) = later s

abbrev pub or_wait :
    {S : Type 0}
    → Bool
    → Method S (Option TupleRecord)
    → Option TupleRecord
    → Method S (Option TupleRecord)
or_wait wait waiting (some r) = pure (some r)
or_wait wait waiting none = if wait then waiting else pure none

module _ {L N : Type 0} (leasing : Leasing L) (enlister : Option (TxnEnlister N)) where
  abbrev pub enlist_first : Option String → Method (SpaceManager L N) Unit
  enlist_first none = pure tt
  enlist_first (some txn_id) = ensure_enlisted enlister txn_id

  module _ (template : Dict String) (txn_id : Option String) where
    abbrev pub read_woken :
        Option TupleRecord
        → (SpaceManager L N → Answer (SpaceManager L N))
        → SpaceManager L N
        → Answer (SpaceManager L N)
    read_woken none later s = found_or later (try_read leasing enlister template txn_id s)
    read_woken (some r) later s =
        if matches (parse_template template) r.attrs then (ok (some r), s) else later s

    unfoldable pub wait_to_read : List (Wakeup L N) → Method (SpaceManager L N) (Option TupleRecord)
    wait_to_read [] s = (ok none, s)
    wait_to_read (w ∷ ws) s = read_woken w.event (wait_to_read ws) (w.since s)

    unfoldable pub read : Bool → List (Wakeup L N) → Method (SpaceManager L N) (Option TupleRecord)
    read wait ws = do
      found ← try_read leasing enlister template txn_id
      or_wait wait (wait_to_read ws) found

    abbrev pub take_woken :
        Option TupleRecord
        → (SpaceManager L N → Answer (SpaceManager L N))
        → SpaceManager L N
        → Answer (SpaceManager L N)
    take_woken none later s = found_or later (try_take leasing enlister template txn_id s)
    take_woken (some r) later s =
        if matches (parse_template template) r.attrs
        then found_or later (try_take leasing enlister template txn_id s)
        else later s

    unfoldable pub wait_to_take : List (Wakeup L N) → Method (SpaceManager L N) (Option TupleRecord)
    wait_to_take [] s = (ok none, s)
    wait_to_take (w ∷ ws) s = take_woken w.event (wait_to_take ws) (w.since s)

    unfoldable pub take : Bool → List (Wakeup L N) → Method (SpaceManager L N) (Option TupleRecord)
    take wait ws = do
      enlist_first txn_id
      found ← try_take leasing enlister template txn_id
      or_wait wait (wait_to_take ws) found
