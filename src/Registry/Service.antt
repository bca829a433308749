-- ===== src/Registry/Service.antt =====
-- The handlers of `RegistryService` (djinn/crates/coordin8-registry/src/service.rs). `L` is the state of
-- the lease grantor; the broadcast channel is the list of what was sent, oldest first.
use Prim.Native.String.{◌++◌ as concat}
use coordin.Common.{
  ℕ, String, Bool, true, false, Option, none, some, List, [], ◌∷◌, ◌++◌, map, all, length, Result,
  ok, err, pure, raise, ok_or, ◌>>=◌, ◌>>◌, eqb, not, ◌&&◌, ◌||◌, ◌==◌, if◌then◌else◌,
}
use coordin.Common.Dict
use coordin.Common.Dict.{Dict}
use coordin.Error.{Error, Method, to_string}
use coordin.Status.{
  Code, Status, Handler, internal, not_found, failed_precondition, permission_denied,
}
use coordin.Lease.{LeaseRecord}
use coordin.Lease.Leasing.{Leasing}
use coordin.Lease.Service.{Lease}
use coordin.Registry.{RegistryEntry, TransportConfig}
use coordin.Registry.Store.{InMemoryRegistryStore}
use coordin.Registry.Index

-- `RegistryChangedEvent`, with the number of its kind.
pub record RegistryChangedEvent : Type 0 where
  pub event_type : ℕ
  pub entry : RegistryEntry

pub record RegistryService (L : Type 0) : Type 0 where
  pub index : InMemoryRegistryStore
  pub leases : L
  pub event_tx : List RegistryChangedEvent

pub record RegisterRequest : Type 0 where
  pub capability_id : String
  pub lease_id : String
  pub ttl_seconds : ℕ
  pub interface : String
  pub attrs : Dict String
  pub transport : Option TransportConfig

pub record ModifyAttrsRequest : Type 0 where
  pub capability_id : String
  pub lease_id : String
  pub add_attrs : Dict String
  pub remove_attrs : List String

pub record Capability : Type 0 where
  pub capability_id : String
  pub interface : String
  pub attrs : Dict String
  pub transport : Option TransportConfig

unfoldable pub entry_to_capability : RegistryEntry → Capability
entry_to_capability e = record {
  capability_id = e.capability_id;
  interface = e.interface;
  attrs = e.attrs;
  transport = e.transport;
}

abbrev pub not_owner : Status
not_owner = record {
  code = permission_denied;
  message = "lease_id does not match the entry's current lease";
}

unfoldable pub is_owner : RegistryEntry → String → Bool
is_owner existing presented = not (presented == "" || not (presented == existing.lease_id))

abbrev same_value : String → Option String → Bool
same_value v none = false
same_value v (some w) = v == w

-- Equality of `HashMap`s: as many entries, and each of the one in the other.
unfoldable pub same_map : Dict String → Dict String → Bool
same_map a b = eqb (length a) (length b) && all (λ e. same_value e.1 (Dict.get e.0 b)) a

unfoldable pub transport_eq : Option TransportConfig → Option TransportConfig → Bool
transport_eq none none = true
transport_eq (some a) (some b) = a.transport_type == b.transport_type && same_map a.config b.config
transport_eq _ _ = false

unfoldable pub is_changed : RegistryEntry → RegistryEntry → Bool
is_changed existing entry =
    not (existing.interface == entry.interface)
    || (not (same_map existing.attrs entry.attrs)
        || not (transport_eq existing.transport entry.transport))

-- The attributes without those of `keys`.
unfoldable pub remove_all : List String → Dict String → Dict String
remove_all [] m = m
remove_all (k ∷ keys) m = remove_all keys (Dict.remove k m)

unfoldable pub add_all : Dict String → Dict String → Dict String
add_all [] m = m
add_all ((k, v) ∷ rest) m = add_all rest (Dict.insert k v m)

abbrev pub entry_of : RegisterRequest → String → String → RegistryEntry
entry_of r capability_id lease_id = record {
  capability_id = capability_id;
  lease_id = lease_id;
  interface = r.interface;
  attrs = r.attrs;
  transport = r.transport;
}

abbrev missing : String → Status
missing capability_id = record {
  code = not_found;
  message = concat "capability not found: " capability_id;
}

module _ {S A : Type 0} where
  abbrev coded : Code → Result Error A × S → Result Status A × S
  coded code (ok a, s) = (ok a, s)
  coded code (err e, s) = (err (record { code = code; message = to_string e }), s)

  -- `.await.map_err(…)?`
  abbrev pub with_code : Code → Method S A → Handler S A
  with_code code m s = coded code (m s)

module _ {L : Type 0} where
  abbrev pub on_index : {A : Type 0} → Method InMemoryRegistryStore A → Method (RegistryService L) A
  on_index m s = ((m s.index).0, record s { index = (m s.index).1 })

  abbrev pub on_leases : {A : Type 0} → Method L A → Method (RegistryService L) A
  on_leases m s = ((m s.leases).0, record s { leases = (m s.leases).1 })

  abbrev pub send : ℕ → RegistryEntry → Handler (RegistryService L) Unit
  send event_type entry s = (
    ok tt,
    record s { event_tx = s.event_tx ++ record { event_type = event_type; entry = entry } ∷ [] },
  )

  unfoldable pub check_owner : RegistryEntry → String → Handler (RegistryService L) Unit
  check_owner existing presented = if is_owner existing presented then pure tt else raise not_owner

  abbrev pub modified : RegistryEntry → Handler (RegistryService L) Unit
  modified entry = do with_code internal (on_index (Index.update entry)); send 2 entry

  unfoldable pub modify_attrs : ModifyAttrsRequest → Handler (RegistryService L) Capability
  unfolding check_owner
  modify_attrs r = do
    found ← with_code internal (on_index (Index.get r.capability_id))
    existing ← ok_or (missing r.capability_id) found
    check_owner existing r.lease_id
    let entry : RegistryEntry = record existing {
      attrs = add_all r.add_attrs (remove_all r.remove_attrs existing.attrs);
    }
    modified entry
    pure (entry_to_capability entry)

  abbrev hit : Option RegistryEntry → Handler (RegistryService L) Capability
  hit (some e) = pure (entry_to_capability e)
  hit none = raise (record { code = not_found; message = "no matching capability" })

  unfoldable pub lookup : Dict String → Handler (RegistryService L) Capability
  lookup template = do found ← with_code internal (on_index (Index.lookup template)); hit found

  unfoldable pub lookup_all : Dict String → Handler (RegistryService L) (List Capability)
  lookup_all template = do
    entries ← with_code internal (on_index (Index.lookup_all template))
    pure (map entry_to_capability entries)

module _ {L : Type 0} (leasing : Leasing L) (grantor_host : String) (grantor_port : ℕ) where
  unfoldable pub lease_to_proto : LeaseRecord → Lease
  lease_to_proto lease = record {
    lease_id = lease.lease_id;
    resource_id = lease.resource_id;
    granted_at = lease.granted_at;
    expires_at = lease.expires_at;
    ttl_seconds = lease.ttl_seconds;
    grantor_host = grantor_host;
    grantor_port = grantor_port;
  }

  abbrev changed_to : Bool → RegistryEntry → Handler (RegistryService L) Unit
  changed_to true entry = modified entry
  changed_to false entry = pure tt

  unfoldable pub reregister : RegisterRequest → Handler (RegistryService L) (String × Lease)
  unfolding check_owner
  reregister r = do
    found ← with_code internal (on_index (Index.get r.capability_id))
    existing ← ok_or (missing r.capability_id) found
    check_owner existing r.lease_id
    lease ←
        with_code failed_precondition (on_leases (leasing.renew existing.lease_id r.ttl_seconds))
    changed_to (is_changed existing (entry_of r r.capability_id existing.lease_id))
        (entry_of r r.capability_id existing.lease_id)
    pure (r.capability_id, lease_to_proto lease)

  unfoldable pub register_new :
      String → RegisterRequest → Handler (RegistryService L) (String × Lease)
  register_new capability_id r = do
    lease ←
        with_code internal
          (on_leases (leasing.grant (concat "registry:" capability_id) r.ttl_seconds))
    with_code internal (on_index (Index.register (entry_of r capability_id lease.lease_id)))
    send 0 (entry_of r capability_id lease.lease_id)
    pure (capability_id, lease_to_proto lease)

  -- `capability_id` is the id drawn for a new entry.
  unfoldable pub register : String → RegisterRequest → Handler (RegistryService L) (String × Lease)
  unfolding reregister register_new
  register capability_id r =
      if r.capability_id == "" then register_new capability_id r else reregister r
