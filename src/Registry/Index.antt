-- ===== src/Registry/Index.antt =====
-- Attribute lookup over the registry's store (djinn/crates/coordin8-registry/src/store.rs).
use coordin.Common.{String, Bool, Option, List, ◌>>=◌, pure, find, filter}
use coordin.Common.Dict
use coordin.Common.Dict.{Dict}
use coordin.Error.{Method}
use coordin.Registry.{RegistryEntry}
use coordin.Registry.Matcher.{parse_template, matches}
use coordin.Registry.Store
use coordin.Registry.Store.{InMemoryRegistryStore}

-- The attributes with the interface among them.
unfoldable pub combined : RegistryEntry → Dict String
combined e = Dict.insert "interface" e.interface e.attrs

abbrev pub entry_matches : Dict String → RegistryEntry → Bool
entry_matches template e = matches (parse_template template) (combined e)

abbrev pub register : RegistryEntry → Method InMemoryRegistryStore Unit
register e = Store.insert e

abbrev pub update : RegistryEntry → Method InMemoryRegistryStore (Option RegistryEntry)
update e = Store.update e

abbrev pub get : String → Method InMemoryRegistryStore (Option RegistryEntry)
get capability_id = Store.get capability_id

abbrev pub get_by_lease : String → Method InMemoryRegistryStore (Option RegistryEntry)
get_by_lease lease_id = Store.get_by_lease lease_id

unfoldable pub unregister_by_lease : String → Method InMemoryRegistryStore (Option RegistryEntry)
unregister_by_lease lease_id = Store.remove_by_lease lease_id

unfoldable pub lookup : Dict String → Method InMemoryRegistryStore (Option RegistryEntry)
lookup template = do all ← Store.list_all; pure (find (entry_matches template) all)

unfoldable pub lookup_all : Dict String → Method InMemoryRegistryStore (List RegistryEntry)
lookup_all template = do all ← Store.list_all; pure (filter (entry_matches template) all)
