-- ===== src/Registry/Store.antt =====
-- The in-memory registry store with its index by lease
-- (djinn/providers/local/src/registry_store.rs).
use coordin.Common.{String, Option, none, some, List, [], ◌∷◌, ok, gets, if◌then◌else◌, ◌==◌}
use coordin.Common.Dict
use coordin.Common.Dict.{Dict}
use coordin.Error.{Method}
use coordin.Registry.{RegistryEntry}

pub record InMemoryRegistryStore : Type 0 where
  pub entries : Dict RegistryEntry
  pub lease_index : Dict String

abbrev pub empty : InMemoryRegistryStore
empty = record { entries = []; lease_index = [] }

unfoldable pub insert : RegistryEntry → Method InMemoryRegistryStore Unit
insert e s = (
  ok tt,
  record s {
    lease_index = Dict.insert e.lease_id e.capability_id s.lease_index;
    entries = Dict.insert e.capability_id e s.entries;
  },
)

-- `retain(|_, cap_id| *cap_id != capability_id)`
unfoldable pub retain_others : String → Dict String → Dict String
retain_others cap [] = []
retain_others cap ((l, c) ∷ m) =
    let rest = retain_others cap m in if c == cap then rest else (l, c) ∷ rest

abbrev reindex : RegistryEntry → Dict String → Dict String
reindex e m = Dict.insert e.lease_id e.capability_id (retain_others e.capability_id m)

unfoldable pub update : RegistryEntry → Method InMemoryRegistryStore (Option RegistryEntry)
update e s =
    if Dict.contains_key e.capability_id s.entries
    then (
      ok (some e),
      record s {
        lease_index = reindex e s.lease_index;
        entries = Dict.insert e.capability_id e s.entries;
      },
    )
    else (ok none, s)

unfoldable pub remove_by_lease : String → Method InMemoryRegistryStore (Option RegistryEntry)
remove_by_lease lease_id s = elim (Dict.get lease_id s.lease_index) [
  | none ↦ (ok none, s)
  | some cap ↦ (
    ok (Dict.get cap s.entries),
    record s {
      lease_index = Dict.remove lease_id s.lease_index;
      entries = Dict.remove cap s.entries;
    },
  )
]

unfoldable pub get : String → Method InMemoryRegistryStore (Option RegistryEntry)
get cap = gets λ s. Dict.get cap s.entries

abbrev get_at : Option String → Dict RegistryEntry → Option RegistryEntry
get_at none m = none
get_at (some cap) m = Dict.get cap m

unfoldable pub get_by_lease : String → Method InMemoryRegistryStore (Option RegistryEntry)
get_by_lease lease_id = gets λ s. get_at (Dict.get lease_id s.lease_index) s.entries

unfoldable pub list_all : Method InMemoryRegistryStore (List RegistryEntry)
list_all = gets λ s. Dict.values s.entries
