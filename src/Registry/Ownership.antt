-- ===== src/Registry/Ownership.antt =====
-- Who may change an entry, and how (djinn/crates/coordin8-registry/src/service.rs).
use coordin.Common.{
  ℕ, String, true, false, Option, none, some, List, [], ◌∷◌, ◌++◌, any, subst, sym, pure, ◌>>◌, ok,
  err, ◌≡◌, ◌≢◌, refl, arith, ◌==◌, if◌then◌else◌, eq_iff, eq_refl,
}
use coordin.Common.Dict
use coordin.Common.Dict.{Dict, IsDict, get-insert, get-remove}
use coordin.Lease.{LeaseRecord}
use coordin.Lease.Leasing.{Leasing}
use coordin.Registry.{RegistryEntry}
use coordin.Registry.Store
use coordin.Registry.Service.{
  RegistryService, RegisterRequest, ModifyAttrsRequest, not_owner, is_owner, is_changed, remove_all,
  add_all, modified, entry_of, modify_attrs, register, lease_to_proto, entry_to_capability,
}

stranger :
    (e : RegistryEntry) (presented : String) → presented ≢ e.lease_id → is_owner e presented ≡ false
unfolding is_owner
stranger e presented n = ground (arith, eq_iff presented e.lease_id)

holder : (e : RegistryEntry) → e.lease_id ≢ "" → is_owner e e.lease_id ≡ true
unfolding is_owner
holder e n = ground (arith, eq_iff e.lease_id e.lease_id, eq_iff e.lease_id "")

remove_all_lem :
    (keys : List String) (m : Dict String) (k : String)
    → Dict.get k (remove_all keys m) ≡ (if any (λ j. j == k) keys then none else Dict.get k m)
unfolding remove_all any
remove_all_lem [] m k = refl
remove_all_lem (j ∷ keys) m k =
    ground (arith, remove_all_lem keys (Dict.remove j m) k, get-remove j k m)

abbrev pub overridden : Option String → Option String → Option String
overridden none old = old
overridden (some v) old = some v

add_all_lem :
    (new m : Dict String) (k : String)
    → IsDict new
    → Dict.get k (add_all new m) ≡ overridden (Dict.get k new) (Dict.get k m)
unfolding add_all Dict.get
add_all_lem [] m k d = refl
add_all_lem ((j, v) ∷ new) m k d =
    ground (arith, add_all_lem new (Dict.insert j v m) k d.1, get-insert j k v m, eq_iff j k)

module _ {L : Type 0} where
  -- A change of attributes by a caller that does not present the current lease of the entry is refused
  -- and changes nothing.
  modify_attrs-not_owner :
      (r : ModifyAttrsRequest) (e : RegistryEntry) (s : RegistryService L)
      → Dict.get r.capability_id s.index.entries ≡ some e
      → r.lease_id ≢ e.lease_id
      → modify_attrs r s ≡ (err not_owner, s)
  unfolding modify_attrs Store.get
  modify_attrs-not_owner r e s found n =
      rw (found, modify_attrs) (rw (stranger e r.lease_id n) refl)

  modify_lem :
      (r : ModifyAttrsRequest) (e : RegistryEntry) (s : RegistryService L)
      → Dict.get r.capability_id s.index.entries ≡ some e
      → is_owner e r.lease_id ≡ true
      → modify_attrs r s
        ≡ (modified (record e { attrs = add_all r.add_attrs (remove_all r.remove_attrs e.attrs) })
              >> pure (
                  entry_to_capability
                    (record e { attrs = add_all r.add_attrs (remove_all r.remove_attrs e.attrs) })))
            s
  unfolding modify_attrs Store.get
  modify_lem r e s found own = rw found (rw own refl)

  modified_lem :
      (e : RegistryEntry) (old : RegistryEntry) (s : RegistryService L)
      → Dict.get e.capability_id s.index.entries ≡ some old
      → modified e s ≡ (
        ok tt,
        record s {
          index = (Store.update e s.index).1;
          event_tx = s.event_tx ++ record { event_type = 2; entry = e } ∷ [];
        },
      )
  unfolding Store.update
  modified_lem e old s found = rw found refl

  -- A change of attributes by the holder of the entry's lease, whose id is not empty, succeeds,
  -- where the entry stands under its own id and no attribute is added twice. Afterwards an
  -- attribute has the added value where there is one, is gone where it is only removed, and else
  -- is as it was; the entry keeps its id, its interface, its lease and its transport.
  pub modify_attrs_exact :
      (r : ModifyAttrsRequest) (e : RegistryEntry) (s : RegistryService L)
      → Dict.get r.capability_id s.index.entries ≡ some e
      → e.capability_id ≡ r.capability_id
      → r.lease_id ≡ e.lease_id
      → e.lease_id ≢ ""
      → IsDict r.add_attrs
      → (attrs : Dict String) × (Dict.get r.capability_id (modify_attrs r s).1.index.entries
          ≡ some (record e { attrs = attrs }))
        × ((modify_attrs r s).0 ≡ ok (entry_to_capability (record e { attrs = attrs })))
        × ((k : String)
            → Dict.get k attrs
              ≡ overridden
                  (Dict.get k r.add_attrs)
                  (if any (λ j. j == k) r.remove_attrs then none else Dict.get k e.attrs))
  unfolding modify_attrs Store.get Store.update
  modify_attrs_exact r e s found id_eq lease_eq n d =
      let attrs = add_all r.add_attrs (remove_all r.remove_attrs e.attrs) in
      let own : is_owner e r.lease_id ≡ true = rw lease_eq (holder e n) in
      let stored : Dict.get e.capability_id s.index.entries ≡ some e =
        subst (λ k. Dict.get k s.index.entries ≡ some e) (sym id_eq) found in
      (
        attrs,
        rw (modify_lem r e s found own) (
            rw (modified_lem (record e { attrs = attrs }) e s stored)
              (rw (stored, Store.update) (rw (get-insert, id_eq, eq_refl) refl))),
        rw (modify_lem r e s found own)
            (rw (modified_lem (record e { attrs = attrs }) e s stored) refl),
        λ k.
            rw (add_all_lem r.add_attrs (remove_all r.remove_attrs e.attrs) k d)
              (rw (remove_all_lem r.remove_attrs e.attrs k) refl),
      )

module _ {L : Type 0} (leasing : Leasing L) (grantor_host : String) (grantor_port : ℕ) where
  -- A re-registration by a caller that does not present the current lease of the entry is refused and
  -- changes nothing, the lease included.
  pub register-not_owner :
      (drawn : String) (r : RegisterRequest) (e : RegistryEntry) (s : RegistryService L)
      → (r.capability_id == "") ≡ false
      → Dict.get r.capability_id s.index.entries ≡ some e
      → r.lease_id ≢ e.lease_id
      → register leasing grantor_host grantor_port drawn r s ≡ (err not_owner, s)
  unfolding register Store.get
  register-not_owner drawn r e s re found n = rw re (rw found (rw (stranger e r.lease_id n) refl))

  -- A re-registration by the holder of the entry's lease, whose id is not empty, that changes
  -- nothing else and whose renewal is granted, renews the lease and neither rewrites the entry nor
  -- tells the watchers.
  register-renews :
      (drawn : String) (r : RegisterRequest) (e : RegistryEntry) (lease : LeaseRecord)
      (s : RegistryService L)
      → (r.capability_id == "") ≡ false
      → Dict.get r.capability_id s.index.entries ≡ some e
      → r.lease_id ≡ e.lease_id
      → e.lease_id ≢ ""
      → is_changed e (entry_of r r.capability_id e.lease_id) ≡ false
      → (leasing.renew e.lease_id r.ttl_seconds s.leases).0 ≡ ok lease
      → register leasing grantor_host grantor_port drawn r s ≡ (
        ok (r.capability_id, lease_to_proto leasing grantor_host grantor_port lease),
        record s { leases = (leasing.renew e.lease_id r.ttl_seconds s.leases).1 },
      )
  unfolding register Store.get
  register-renews drawn r e lease s re found lease_eq n same renewed =
      let own : is_owner e r.lease_id ≡ true = rw lease_eq (holder e n) in
      rw re (rw found (rw own (rw (renewed, same) refl)))
