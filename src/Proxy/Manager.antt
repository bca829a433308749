-- ===== src/Proxy/Manager.antt =====
-- The proxy manager (djinn/crates/coordin8-proxy/src/manager.rs and local_resolver.rs). `L` is the
-- state of its lease grantor, `R` what its resolver reads, and `W` the operating system's sockets.
-- `listening` holds the accept loops that run, under the id of their proxy, with their ports, and
-- `signalled` the proxies whose `shutdown` was sent to and whose loop has not ended since.
use Prim.Native.String.{◌++◌ as concat}
use coordin.Common.{
  ℕ, zero, suc, ◌+◌, ◌-◌, String, Bool, true, false, Option, none, some, [], Result, ok, err, Exec,
  pure, ignore, ◌>>=◌, ◌>>◌, ltb, leb, if◌then◌else◌,
}
use coordin.Common.Text.{strip_prefix}
use coordin.Common.Chars.{parse_uint}
use coordin.Common.Dict
use coordin.Common.Dict.{Dict}
use coordin.Error.{Error, Method}
use coordin.Lease.{LeaseRecord, LeaseReclaimed}
use coordin.Lease.Leasing.{Leasing}
use coordin.Registry.{RegistryEntry, TransportConfig}
use coordin.Registry.Index
use coordin.Registry.Store.{InMemoryRegistryStore}

pub data ProxyError : Type 0 where
  not_found : Dict String → ProxyError
  proxy_not_found : String → ProxyError
  port_range_exhausted : ProxyError
  io : String → ProxyError
  store : Error → ProxyError

pub record ProxyEntry : Type 0 where
  pub lease_id : String

pub record ProxyConfig : Type 0 where
  pub bind_host : String
  pub port_range : Option (ℕ × ℕ)

abbrev or_localhost : Option String → String
or_localhost none = "127.0.0.1"
or_localhost (some host) = host

abbrev port_of : Option String → Option ℕ
port_of none = none
port_of (some v) = parse_uint 65535 v

abbrev range_of : Option ℕ → Option ℕ → Option (ℕ × ℕ)
range_of (some min) (some max) = some (min, max)
range_of _ _ = none

-- The variables for the host, the least and the greatest port, where they are set.
unfoldable pub from_env : Option String → Option String → Option String → ProxyConfig
from_env host min max = record {
  bind_host = or_localhost host;
  port_range = range_of (port_of min) (port_of max);
}

-- `TcpListener::bind`, with the port of the listener's own address; port 0 asks for any free one.
pub record Sockets (W : Type 0) : Type 0 where
  pub bind : String → ℕ → W → Result String ℕ × W

-- The trait `CapabilityResolver`.
pub record Resolver (R : Type 0) : Type 0 where
  pub resolve : Dict String → Method R (Option RegistryEntry)

-- `LocalCapabilityResolver`
abbrev pub local_resolver : Resolver InMemoryRegistryStore
local_resolver = record { resolve = Index.lookup }

pub record ProxyManager (L R W : Type 0) : Type 0 where
  pub leases : L
  pub registry : R
  pub sockets : W
  pub proxies : Dict ProxyEntry
  pub listening : Dict ℕ
  pub signalled : Dict (Unit {0})
  pub config : ProxyConfig
  pub next_port : ℕ

abbrev first_port : Option (ℕ × ℕ) → ℕ
first_port none = 0
first_port (some range) = range.0

abbrev stored : {A : Type 0} → Result Error A → Result ProxyError A
stored (ok a) = ok a
stored (err e) = err (store e)

-- The port that the next attempt takes, and the one after it.
abbrev pub port_to_try : ℕ → ℕ → ℕ → ℕ
port_to_try min max next = if ltb max next then min else next

abbrev pub port_after : ℕ → ℕ → ℕ → ℕ
port_after min max port = if leb max port then min else port + 1

module _ {L R W : Type 0} where
  unfoldable pub new : R → W → ProxyConfig → L → ProxyManager L R W
  new registry sockets config leases = record {
    leases = leases;
    registry = registry;
    sockets = sockets;
    proxies = [];
    listening = [];
    signalled = [];
    config = config;
    next_port = first_port config.port_range;
  }

  abbrev pub on_leases : {A : Type 0} → Method L A → Exec ProxyError (ProxyManager L R W) A
  on_leases m s = (stored (m s.leases).0, record s { leases = (m s.leases).1 })

  abbrev pub on_registry : {A : Type 0} → Method R A → Exec ProxyError (ProxyManager L R W) A
  on_registry m s = (stored (m s.registry).0, record s { registry = (m s.registry).1 })

  -- The entry is taken out and its `shutdown` is sent to. The accept loop ends later.
  abbrev pub shut_down : String → ProxyManager L R W → ProxyManager L R W
  shut_down proxy_id s = record s {
    proxies = Dict.remove proxy_id s.proxies;
    signalled = Dict.insert proxy_id tt s.signalled;
  }

  -- The spawned task ends, by an error of `accept` or by the signal.
  unfoldable pub loop_ended : String → ProxyManager L R W → ProxyManager L R W
  loop_ended proxy_id s = record s {
    proxies = Dict.remove proxy_id s.proxies;
    listening = Dict.remove proxy_id s.listening;
    signalled = Dict.remove proxy_id s.signalled;
  }

  abbrev drop_listed : String → Option ProxyEntry → ProxyManager L R W → ProxyManager L R W
  drop_listed proxy_id none s = s
  drop_listed proxy_id (some entry) s = shut_down proxy_id s

  abbrev reclaimed : Option String → ProxyManager L R W → ProxyManager L R W
  reclaimed none s = s
  reclaimed (some proxy_id) s = drop_listed proxy_id (Dict.get proxy_id s.proxies) s

  unfoldable pub handle_reclaimed : LeaseReclaimed → ProxyManager L R W → ProxyManager L R W
  handle_reclaimed event = reclaimed (strip_prefix "proxy:" event.lease_record.resource_id)

  abbrev pub or_else :
      Result String ℕ × ProxyManager L R W
      → Exec ProxyError (ProxyManager L R W) ℕ
      → Result ProxyError ℕ × ProxyManager L R W
  or_else (ok port, s) rest = (ok port, s)
  or_else (err e, s) rest = rest s

  abbrev pub io_error :
      Result String ℕ × ProxyManager L R W → Result ProxyError ℕ × ProxyManager L R W
  io_error (ok port, s) = (ok port, s)
  io_error (err e, s) = (err (io e), s)

module _ {L R W : Type 0} (net : Sockets W) where
  abbrev bind : String → ℕ → ProxyManager L R W → Result String ℕ × ProxyManager L R W
  bind host port s =
      ((net.bind host port s.sockets).0, record s { sockets = (net.bind host port s.sockets).1 })

  -- The loop over the range, of which `attempts` are left.
  unfoldable pub try_ports : ℕ → ℕ → ℕ → Exec ProxyError (ProxyManager L R W) ℕ
  try_ports zero min max s = (err port_range_exhausted, s)
  try_ports (suc attempts) min max s =
      let port = port_to_try min max s.next_port in
      or_else (bind s.config.bind_host port (record s { next_port = port_after min max port }))
        (try_ports attempts min max)

  unfoldable pub bind_listener : Exec ProxyError (ProxyManager L R W) ℕ
  bind_listener s = elim s.config.port_range [
    | some range ↦ try_ports (range.1 + 1 - range.0) range.0 range.1 s
    | none ↦ io_error (bind s.config.bind_host 0 s)
  ]

-- `cloned().unwrap_or_default()`
abbrev or_empty : Option String → String
or_empty none = ""
or_empty (some v) = v

abbrev pub or_not_found : {S A : Type 0} → Dict String → Option A → Exec ProxyError S A
or_not_found template none s = (err (not_found template), s)
or_not_found template (some a) s = (ok a, s)

-- Where the traffic of a capability goes.
abbrev address : TransportConfig → String
address t =
    concat (or_empty (Dict.get "host" t.config)) (concat ":" (or_empty (Dict.get "port" t.config)))

module _ {L R W : Type 0} (leasing : Leasing L) (resolver : Resolver R) (net : Sockets W) where
  unfoldable pub resolve : Dict String → Exec ProxyError (ProxyManager L R W) String
  resolve template = do
    found ← on_registry (resolver.resolve template)
    entry ← or_not_found template found
    t ← or_not_found template entry.transport
    pure (address t)

  abbrev pub spawned : String → ℕ → ProxyManager L R W → ProxyManager L R W
  spawned proxy_id local_port s = record s {
    listening = Dict.insert proxy_id local_port s.listening;
  }

  abbrev pub ended_if : Bool → String → ProxyManager L R W → ProxyManager L R W
  ended_if false proxy_id s = s
  ended_if true proxy_id s = loop_ended proxy_id s

  abbrev pub listed : String → LeaseRecord → ProxyManager L R W → ProxyManager L R W
  listed proxy_id lease s = record s {
    proxies = Dict.insert proxy_id (record { lease_id = lease.lease_id }) s.proxies;
  }

  -- The accept loop is spawned, may end at once, and then the proxy is listed.
  abbrev pub started :
      Bool
      → String
      → ℕ
      → LeaseRecord
      → Exec ProxyError (ProxyManager L R W) (String × ℕ × LeaseRecord)
  started early proxy_id local_port lease s = (
    ok (proxy_id, local_port, lease),
    listed proxy_id lease (ended_if early proxy_id (spawned proxy_id local_port s)),
  )

  -- `uuid` is the text of `Uuid::new_v4()`, and `early` tells whether the accept loop ends before the
  -- proxy is listed. Without a lease the listener is dropped.
  unfoldable pub open_proxy :
      Bool
      → String
      → Dict String
      → ℕ
      → Exec ProxyError (ProxyManager L R W) (String × ℕ × LeaseRecord)
  open_proxy early uuid template ttl_secs = do
    resolve template
    local_port ← bind_listener net
    lease ← on_leases (leasing.grant (concat "proxy:" uuid) ttl_secs)
    started early uuid local_port lease

  abbrev pub closed : String → Option ProxyEntry → Exec ProxyError (ProxyManager L R W) Unit
  closed proxy_id none s = (err (proxy_not_found proxy_id), s)
  closed proxy_id (some entry) s =
      (ok tt, ignore (on_leases (leasing.cancel entry.lease_id)) (shut_down proxy_id s))

  unfoldable pub close : String → Exec ProxyError (ProxyManager L R W) Unit
  close proxy_id s = closed proxy_id (Dict.get proxy_id s.proxies) s
