-- ===== src/Proxy/Service.antt =====
-- The handlers of `ProxyService` (djinn/crates/coordin8-proxy/src/service.rs). A template is printed
-- by the standard library's `{:?}` and an error of the operating system by its `Display`, so `text`
-- gives the message of an error.
use coordin.Common.{Bool, ℕ, String, Option, some, Result, ok, err}
use coordin.Common.Dict.{Dict}
use coordin.Error.{unavailable}
use coordin.Status.{Status, Handler, not_found, unavailable as unavailable_code}
use coordin.Lease.{LeaseRecord}
use coordin.Lease.Leasing.{Leasing}
use coordin.Lease.Service.{Lease}
use coordin.Proxy.Manager
use coordin.Proxy.Manager.{ProxyManager, ProxyError, store, Sockets, Resolver}

pub record OpenRequest : Type 0 where
  pub template : Dict String
  pub ttl_seconds : ℕ

pub record ProxyHandle : Type 0 where
  pub proxy_id : String
  pub local_port : ℕ
  pub lease : Option Lease

module _ (text : ProxyError → String) where
  -- Only a dependency that is not ready has a code of its own.
  unfoldable pub map_err : ProxyError → Status
  map_err (store (unavailable m)) = record {
    code = unavailable_code;
    message = text (store (unavailable m));
  }
  map_err e = record { code = not_found; message = text e }

  abbrev mapped : {A S : Type 0} → Result ProxyError A × S → Result Status A × S
  mapped (ok a, s) = (ok a, s)
  mapped (err e, s) = (err (map_err e), s)

  abbrev handle :
      {S : Type 0}
      → String
      → ℕ
      → Result ProxyError (String × ℕ × LeaseRecord) × S
      → Result Status ProxyHandle × S
  handle host port (err e, s) = (err (map_err e), s)
  handle host port (ok opened, s) = (
    ok (record {
      proxy_id = opened.0;
      local_port = opened.1;
      lease = some (record {
        lease_id = opened.2.lease_id;
        resource_id = opened.2.resource_id;
        granted_at = opened.2.granted_at;
        expires_at = opened.2.expires_at;
        ttl_seconds = opened.2.ttl_seconds;
        grantor_host = host;
        grantor_port = port;
      });
    }),
    s,
  )

  module _ {L R W : Type 0} (leasing : Leasing L) (resolver : Resolver R) (net : Sockets W) where
    -- `grantor_host` and `grantor_port` are the service's own address, and `early` is as for the manager.
    unfoldable pub open_proxy :
        String → ℕ → Bool → String → OpenRequest → Handler (ProxyManager L R W) ProxyHandle
    open_proxy grantor_host grantor_port early uuid request s =
        handle grantor_host grantor_port (
          Manager.open_proxy leasing resolver net early uuid request.template request.ttl_seconds s)

    unfoldable pub release : String → Handler (ProxyManager L R W) Unit
    release proxy_id s = mapped (Manager.close leasing resolver net proxy_id s)
