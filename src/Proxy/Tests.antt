-- ===== src/Proxy/Tests.antt =====
-- Runs of the proxy manager, and its theorems at concrete inputs.
use coordin.Common.{
  ℕ, ◌≤◌, String, some, List, [], ◌∷◌, ok, err, ltb, Bool, true, false, ◌==◌, if◌then◌else◌, ◌≡◌,
  refl, arith,
}
use coordin.Common.Dict
use coordin.Common.Dict.{Dict}
use coordin.Lease.{LeaseRecord, LeaseReclaimed, expired}
use coordin.Lease.Leasing.{Leasing}
use coordin.Registry.{RegistryEntry}
use coordin.Proxy.Manager.{ProxyManager, Sockets, Resolver, try_ports, bind_listener}
use coordin.Proxy.Ports.{IsWithin, IsExact, bind_listener-finds, bind_listener-InRange}
use coordin.Proxy.Listeners.{IsServed, Event, opens, closes, ends, reclaims, run, run-IsServed}

abbrev lease : String → LeaseRecord
lease resource = record {
  lease_id = "l1";
  resource_id = resource;
  granted_at = 0;
  expires_at = 30;
  ttl_seconds = 30;
}

-- A grantor whose state is the list of cancelled leases.
abbrev grantor : Leasing (List String)
grantor = record {
  grant = λ resource ttl s. (ok (lease resource), s);
  renew = λ lease_id ttl s. (ok (lease ""), s);
  cancel = λ lease_id s. (ok tt, lease_id ∷ s);
}

abbrev printer : RegistryEntry
printer = record {
  capability_id = "c1";
  lease_id = "l9";
  interface = "Printer";
  attrs = [];
  transport = some (record { transport_type = "tcp"; config = ("host", "h") ∷ ("port", "1") ∷ [] });
}

abbrev resolver : Resolver Unit
resolver = record { resolve = λ template s. (ok (some printer), s) }

-- The ports below 9102 are taken.
abbrev net : Sockets Unit
net = record { bind = λ host port w. (if ltb port 9102 then err "address in use" else ok port, w) }

abbrev manager : ProxyManager (List String) Unit Unit
manager = record {
  leases = [];
  registry = tt;
  sockets = tt;
  proxies = ("p0", record { lease_id = "l0" }) ∷ [];
  listening = ("p0", 9100) ∷ [];
  signalled = [];
  config = record { bind_host = "127.0.0.1"; port_range = some (9100, 9103) };
  next_port = 9103;
}

bind_run : (bind_listener net (record manager { next_port = 9101 })).0 ≡ ok 9102
unfolding bind_listener try_ports
bind_run = refl

net-IsExact : IsExact net
net-IsExact host port w k n e = ground arith

manager-IsWithin : IsWithin 9100 9103 manager
manager-IsWithin = record { above = omega arith; below = omega arith }

bind_listener-finds_example : (k : ℕ) × ((bind_listener net manager).0 ≡ ok k)
bind_listener-finds_example =
    bind_listener-finds net 9100 9103 9102 manager refl manager-IsWithin (omega arith) (omega arith)
      (λ w. (9102, refl))

bind_listener-InRange_example :
    IsWithin 9100 9103 (bind_listener net manager).1
    × ((k : ℕ) → (bind_listener net manager).0 ≡ ok k → (9100 ≤ k) × (k ≤ 9103))
bind_listener-InRange_example =
    bind_listener-InRange net 9100 9103 manager refl net-IsExact (omega arith) manager-IsWithin

-- The accept loop of `p2` may end before the proxy is listed.
abbrev early : String → Bool
early id = id == "p2"

manager-IsServed : IsServed early manager
unfolding Dict.get
manager-IsServed = record { stoppable = λ id h. ground arith; backed = λ id p h. ground arith }

abbrev report : LeaseReclaimed
report = record { lease_record = lease "proxy:p1"; reason = expired }

abbrev events : List Event
events =
    opens false "p1" [] 30 ∷ opens true "p2" [] 30 ∷ closes "p0" ∷ reclaims report ∷ ends "p0" ∷ []

run-IsServed_example : IsServed early (run grantor resolver net events manager)
run-IsServed_example =
    run-IsServed grantor resolver net early events manager
      (λ h. cc, (λ h. refl, (tt, (tt, (tt, tt))))) manager-IsServed
