-- ===== src/Space/Service.antt =====
-- The handlers of `SpaceService` and the stream of `notify`
-- (djinn/crates/coordin8-space/src/service.rs). A time is the number of seconds that the handler sends.
use coordin.Common.{
  ℕ, String, Bool, true, false, not, Option, none, some, List, [], ◌∷◌, map, Result, ok, err,
  map_err as on_err, eqb, pure, ◌>>=◌, if◌then◌else◌, ◌==◌, ◌||◌,
}
use coordin.Common.Dict.{Dict}
use coordin.Error.{
  Error, Method, unavailable as unavailable_error, invalid_argument as invalid_argument_error,
  permission_denied as permission_denied_error, tuple_not_found, watch_not_found, lease_not_found,
  lease_expired, to_string,
}
use coordin.Status.{
  Code, Status, Handler, unavailable, not_found, failed_precondition, invalid_argument,
  permission_denied, internal, data_loss,
}
use coordin.Lease.{LeaseRecord}
use coordin.Lease.Leasing.{Leasing}
use coordin.Lease.Service.{Lease}
use coordin.Registry.Matcher.{parse_template, matches}
use coordin.Space.{TupleRecord, SpaceEventKind, appearance, expiration}
use coordin.Space.Manager
use coordin.Space.Manager.{SpaceManager, TxnEnlister}
use coordin.Space.Waiting
use coordin.Space.Waiting.{Wakeup}

abbrev code_of : Error → Code
code_of (unavailable_error _) = unavailable
code_of (tuple_not_found _) = not_found
code_of (watch_not_found _) = not_found
code_of (lease_not_found _) = not_found
code_of (lease_expired _) = failed_precondition
code_of (invalid_argument_error _) = invalid_argument
code_of (permission_denied_error _) = permission_denied
code_of _ = internal

unfoldable pub map_err : Error → Status
map_err e = record { code = code_of e; message = to_string e }

-- The proto message `Tuple`, with its `Provenance`.
pub record Provenance : Type 0 where
  pub written_by : String
  pub written_at : ℕ
  pub input_tuple_id : String

pub record Tuple : Type 0 where
  pub tuple_id : String
  pub attrs : Dict String
  pub payload : List ℕ
  pub provenance : Provenance
  pub lease : Option Lease

-- `unwrap_or_default` on a text.
abbrev or_empty : Option String → String
or_empty none = ""
or_empty (some text) = text

unfoldable pub tuple_record_to_proto : TupleRecord → Option Lease → Tuple
tuple_record_to_proto r lease = record {
  tuple_id = r.tuple_id;
  attrs = r.attrs;
  payload = r.payload;
  provenance = record {
    written_by = r.written_by;
    written_at = r.written_at;
    input_tuple_id = or_empty r.input_tuple_id;
  };
  lease = lease;
}

-- The empty text stands for none; `write` reads the tuple it derives from in the same way.
unfoldable pub parse_txn_id : String → Option String
parse_txn_id txn_id = if txn_id == "" then none else some txn_id

abbrev without_lease : Option TupleRecord → Option Tuple
without_lease none = none
without_lease (some r) = some (tuple_record_to_proto r none)

module _ {A S : Type 0} where
  -- `.await.map_err(map_err)?`
  abbrev pub mapped : Method S A → Handler S A
  mapped m s = (on_err map_err (m s).0, (m s).1)

-- The proto message `SpaceEvent`.
pub record SpaceEvent : Type 0 where
  pub event_type : ℕ
  pub tuple : Tuple
  pub occurred_at : ℕ
  pub handback : List ℕ

abbrev pub to_kind : ℕ → SpaceEventKind
to_kind n = if eqb n 1 then expiration else appearance

abbrev pub to_number : SpaceEventKind → ℕ
to_number appearance = 0
to_number expiration = 1

-- What the stream of `notify` finds next: a tuple, the time, and whether the client still takes the
-- event, or that it missed some.
pub data Next : Type 0 where
  received : TupleRecord → ℕ → Bool → Next
  lagged : Next

abbrev no_ops : {A : Type 0} → List A → Bool
no_ops [] = true
no_ops (op ∷ ops) = false

abbrev pub watches : Dict String → TupleRecord → Bool
watches template r = no_ops (parse_template template) || matches (parse_template template) r.attrs

abbrev pub lag_status : Status
lag_status = record { code = data_loss; message = "watcher lagged; resubscribe and re-snapshot" }

-- What the stream sends until it ends.
unfoldable pub notify_loop :
    Dict String → SpaceEventKind → List ℕ → List Next → List (Result Status SpaceEvent)
notify_loop template kind handback [] = []
notify_loop template kind handback (lagged ∷ rest) = err lag_status ∷ []
notify_loop template kind handback (received r now taken ∷ rest) =
    let later = notify_loop template kind handback rest in
    let event : SpaceEvent = record {
      event_type = to_number kind;
      tuple = tuple_record_to_proto r none;
      occurred_at = now;
      handback = handback;
    } in
    if not (watches template r) then later else if taken then ok event ∷ later else []

module _ {L N : Type 0} (leasing : Leasing L) (enlister : Option (TxnEnlister N)) where
  -- Which channel the stream then listens to is the kind that is returned.
  unfoldable pub notify :
      String → Dict String → ℕ → ℕ → List ℕ → Handler (SpaceManager L N) SpaceEventKind
  notify watch_id template kind ttl_secs handback = do
    opened ←
        mapped (Manager.notify leasing enlister watch_id template (to_kind kind) ttl_secs handback)
    pure (to_kind kind)

  -- The list is what the caller receives while it waits.
  unfoldable pub read :
      Dict String → Bool → String → List (Wakeup L N) → Handler (SpaceManager L N) (Option Tuple)
  read template wait txn_id ws = do
    result ← mapped (Waiting.read leasing enlister template (parse_txn_id txn_id) wait ws)
    pure (without_lease result)

  unfoldable pub take :
      Dict String → Bool → String → List (Wakeup L N) → Handler (SpaceManager L N) (Option Tuple)
  take template wait txn_id ws = do
    result ← mapped (Waiting.take leasing enlister template (parse_txn_id txn_id) wait ws)
    pure (without_lease result)

  -- The tuples of the stream, for a client that takes them all.
  unfoldable pub contents : Dict String → String → Handler (SpaceManager L N) (List Tuple)
  contents template txn_id = do
    tuples ← mapped (Manager.contents leasing enlister template (parse_txn_id txn_id))
    pure (map (λ r. tuple_record_to_proto r none) tuples)

  unfoldable pub cancel : String → Handler (SpaceManager L N) Unit
  cancel tuple_id = mapped (Manager.cancel leasing enlister tuple_id)

  module _ (grantor_host : String) (grantor_port : ℕ) where
    unfoldable pub lease_to_proto : LeaseRecord → Lease
    lease_to_proto lease = record {
      lease_id = lease.lease_id;
      resource_id = lease.resource_id;
      granted_at = lease.granted_at;
      expires_at = lease.expires_at;
      ttl_seconds = lease.ttl_seconds;
      grantor_host = grantor_host;
      grantor_port = grantor_port;
    }

    -- After the time and the identifier of the tuple, the fields of the request.
    unfoldable pub write :
        ℕ
        → String
        → Dict String
        → List ℕ
        → ℕ
        → String
        → String
        → String
        → Handler (SpaceManager L N) Tuple
    write now tuple_id attrs payload ttl_secs written_by input_tuple_id txn_id = do
      written ← mapped (
          Manager.write leasing enlister now tuple_id attrs payload ttl_secs written_by
            (parse_txn_id input_tuple_id) (parse_txn_id txn_id))
      pure (tuple_record_to_proto written.0 (some (lease_to_proto written.1)))

    unfoldable pub renew : String → ℕ → Handler (SpaceManager L N) Lease
    renew tuple_id ttl_secs = do
      r ← mapped (Manager.renew leasing enlister tuple_id ttl_secs)
      pure (lease_to_proto r)
