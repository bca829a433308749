-- ===== src/Registry/Coherence.antt =====
-- The lease index and the entries of the registry's store agree
-- (djinn/providers/local/src/registry_store.rs).
use coordin.Common.{
  String, Option, none, some, ◌≡◌, refl, arith, if◌then◌else◌, ◌==◌, eq_iff, Option-cases, inl, inr,
}
use coordin.Common.Dict
use coordin.Common.Dict.{get-insert, get-remove}
use coordin.Common.Keyed.{IsKeyed, insert-IsKeyed, remove-IsKeyed}
use coordin.Registry.{RegistryEntry}
use coordin.Registry.Store.{InMemoryRegistryStore, insert, remove_by_lease}

abbrev pub lease_at : Option RegistryEntry → Option String
lease_at none = none
lease_at (some e) = some e.lease_id

-- Each entry stands under its capability id and is indexed under its lease, and each lease of the
-- index is held by the entry that it leads to.
pub record IsCoherent (s : InMemoryRegistryStore) : Type 0 where
  pub keyed : IsKeyed (λ (e : RegistryEntry). e.capability_id) s.entries
  pub indexed :
      (cap : String) (e : RegistryEntry)
      → Dict.get cap s.entries ≡ some e
      → Dict.get e.lease_id s.lease_index ≡ some cap
  pub held :
      (l cap : String)
      → Dict.get l s.lease_index ≡ some cap
      → lease_at (Dict.get cap s.entries) ≡ some l

-- Registering an entry under a new capability id and a new lease keeps the index coherent.
pub insert-IsCoherent :
    (e : RegistryEntry) (s : InMemoryRegistryStore)
    → IsCoherent s
    → Dict.get e.capability_id s.entries ≡ none
    → Dict.get e.lease_id s.lease_index ≡ none
    → IsCoherent (insert e s).1
unfolding insert
insert-IsCoherent e s c new_cap new_lease = record {
  keyed =
      insert-IsKeyed (λ (e : RegistryEntry). e.capability_id) e.capability_id e s.entries refl
        c.keyed;
  indexed = λ cap f h. ground (
    arith,
    get-insert e.capability_id cap e s.entries,
    get-insert e.lease_id f.lease_id e.capability_id s.lease_index,
    c.indexed cap f,
    eq_iff e.capability_id cap,
    eq_iff e.lease_id f.lease_id,
  );
  held = λ l cap h. ground (
    arith,
    get-insert e.capability_id cap e s.entries,
    get-insert e.lease_id l e.capability_id s.lease_index,
    c.held l cap,
    eq_iff e.capability_id cap,
    eq_iff e.lease_id l,
  );
}

-- What reclaiming a lease leaves behind.
removed-IsCoherent :
    (l cap : String) (s : InMemoryRegistryStore)
    → IsCoherent s
    → Dict.get l s.lease_index ≡ some cap
    → IsCoherent (record s {
      lease_index = Dict.remove l s.lease_index;
      entries = Dict.remove cap s.entries;
    })
removed-IsCoherent l cap s c h = record {
  keyed = remove-IsKeyed (λ (e : RegistryEntry). e.capability_id) cap s.entries c.keyed;
  indexed = λ j f x. ground (
    arith,
    get-remove cap j s.entries,
    get-remove l f.lease_id s.lease_index,
    c.indexed j f,
    c.held l cap h,
    eq_iff cap j,
    eq_iff l f.lease_id,
    h,
  );
  held = λ k j x. ground (
    arith,
    get-remove cap j s.entries,
    get-remove l k s.lease_index,
    c.held k j,
    c.held l cap h,
    eq_iff cap j,
    eq_iff l k,
  );
}

-- Reclaiming a lease, known or not, keeps the index coherent.
pub remove_by_lease-IsCoherent :
    (l : String) (s : InMemoryRegistryStore) → IsCoherent s → IsCoherent (remove_by_lease l s).1
unfolding remove_by_lease
remove_by_lease-IsCoherent l s c = elim (Option-cases (Dict.get l s.lease_index)) [
  | inl e ↦ rw (e, remove_by_lease) c
  | inr (cap, e) ↦ rw (e, remove_by_lease) (removed-IsCoherent l cap s c e)
]

-- In a coherent store, reclaiming a lease takes out exactly the entry that holds it: afterwards an
-- entry is found under a capability id if and only if it was and its lease is another one.
pub remove_by_lease_exact :
    (l : String) (s : InMemoryRegistryStore)
    → IsCoherent s
    → (cap : String)
    → Dict.get cap (remove_by_lease l s).1.entries ≡ elim (Dict.get cap s.entries) [
      | none ↦ none
      | some e ↦ if e.lease_id == l then none else some e
    ]
unfolding remove_by_lease
remove_by_lease_exact l s c cap = elim (Option-cases (Dict.get cap s.entries)) [
  | inl e ↦ elim (Option-cases (Dict.get l s.lease_index)) [
    | inl x ↦ rw (x, remove_by_lease, e)
    | inr (k, x) ↦ ground (arith, x, e, get-remove k cap s.entries)
  ]
  | inr (f, e) ↦ elim (Option-cases (Dict.get l s.lease_index)) [
    | inl x ↦ ground (arith, x, e, c.indexed cap f e, eq_iff f.lease_id l)
    | inr (k, x) ↦ ground (
      arith,
      x,
      e,
      get-remove k cap s.entries,
      c.indexed cap f e,
      c.held l k x,
      eq_iff f.lease_id l,
      eq_iff k cap,
    )
  ]
]
