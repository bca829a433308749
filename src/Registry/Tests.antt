-- ===== src/Registry/Tests.antt =====
-- Runs of the matcher and the registry's store, and the theorems at concrete inputs.
use coordin.Common.{
  String, true, false, Option, none, some, List, [], ◌∷◌, ok, err, any, all, ℕ, ◌≡◌, ◌≢◌, ◌↔◌, refl,
  arith, if◌then◌else◌, ◌==◌, eq_iff,
}
use coordin.Common.Text.{strip_prefix}
use coordin.Common.Dict
use coordin.Common.Dict.{Dict}
use coordin.Lease.{LeaseRecord}
use coordin.Lease.Leasing.{Leasing}
use coordin.Registry.Service.{
  RegistryService, RegisterRequest, ModifyAttrsRequest, not_owner, modify_attrs, register,
  entry_to_capability,
}
use coordin.Registry.Ownership.{overridden, modify_attrs_exact, register-not_owner}
use coordin.Registry.{RegistryEntry}
use coordin.Registry.Matcher.{eq, op_matches, parse_value, parse_template, matches}
use coordin.Registry.Matching.{print_op, parse_value-print_op, Meets, matches_iff}
use coordin.Registry.Store.{empty, insert, remove_by_lease}
use coordin.Registry.Coherence.{IsCoherent, insert-IsCoherent, remove_by_lease_exact}

abbrev printer : RegistryEntry
printer = record {
  capability_id = "c1";
  lease_id = "l1";
  interface = "Printer";
  attrs = ("floor", "2") ∷ [];
  transport = none;
}

abbrev scanner : RegistryEntry
scanner = record printer { capability_id = "c2"; lease_id = "l2"; interface = "Scanner" }

abbrev template : Dict String
template = ("model", "starts_with:HP") ∷ ("floor", "*") ∷ []

abbrev attrs : Dict String
attrs = ("model", "HP-7") ∷ []

abbrev more : Dict String
more = ("model", "HP-7") ∷ ("floor", "3") ∷ []

matches_run : matches (parse_template template) attrs ≡ true
unfolding matches parse_template parse_value strip_prefix op_matches Dict.get coordin.Common.all
matches_run = refl

parse_value-print_op_example : parse_value (print_op (eq "laser")) ≡ eq "laser"
parse_value-print_op_example =
    parse_value-print_op (eq "laser")
      (record { not_empty = refl; not_star = refl; not_contains = refl; not_starts_with = refl })

matches_iff_example :
    (matches (parse_template template) attrs ≡ true)
    ↔ ((k v : String) → Dict.get k template ≡ some v → Meets v (Dict.get k attrs))
unfolding Dict.get
matches_iff_example = matches_iff template attrs (refl, (refl, tt))

empty-IsCoherent : IsCoherent empty
unfolding Dict.get
empty-IsCoherent = record { keyed = tt; indexed = λ cap e h. cc; held = λ l cap h. cc }

both-IsCoherent : IsCoherent (insert scanner (insert printer empty).1).1
unfolding Dict.get insert Dict.insert Dict.remove
both-IsCoherent =
    insert-IsCoherent scanner (insert printer empty).1
      (insert-IsCoherent printer empty empty-IsCoherent refl refl) refl refl

remove_by_lease_exact_example :
    Dict.get "c2" (remove_by_lease "l1" (insert scanner (insert printer empty).1).1).1.entries
    ≡ elim (Dict.get "c2" (insert scanner (insert printer empty).1).1.entries) [
      | none ↦ none
      | some e ↦ if e.lease_id == "l1" then none else some e
    ]
remove_by_lease_exact_example =
    remove_by_lease_exact "l1" (insert scanner (insert printer empty).1).1 both-IsCoherent "c2"

abbrev leased : String → ℕ → LeaseRecord
leased resource ttl = record {
  lease_id = "l1";
  resource_id = resource;
  granted_at = 0;
  expires_at = ttl;
  ttl_seconds = ttl;
}

abbrev grantor : Leasing Unit
grantor = record {
  grant = λ resource ttl s. (ok (leased resource ttl), s);
  renew = λ lease_id ttl s. (ok (leased lease_id ttl), s);
  cancel = λ lease_id s. (ok tt, s);
}

abbrev service : RegistryService Unit
service = record { index = (insert printer empty).1; leases = tt; event_tx = [] }

service-found : Dict.get "c1" service.index.entries ≡ some printer
unfolding insert Dict.insert Dict.get
service-found = refl

abbrev change : String → ModifyAttrsRequest
change lease_id = record {
  capability_id = "c1";
  lease_id = lease_id;
  add_attrs = ("color", "yes") ∷ [];
  remove_attrs = "floor" ∷ [];
}

abbrev renewal : String → RegisterRequest
renewal lease_id = record {
  capability_id = "c1";
  lease_id = lease_id;
  ttl_seconds = 30;
  interface = "Printer";
  attrs = ("floor", "2") ∷ [];
  transport = none;
}

modify_attrs_exact_example :
    (attrs : Dict String) × (Dict.get "c1" (modify_attrs (change "l1") service).1.index.entries
      ≡ some (record printer { attrs = attrs }))
    × ((modify_attrs (change "l1") service).0
        ≡ ok (entry_to_capability (record printer { attrs = attrs })))
    × ((k : String)
        → Dict.get k attrs
          ≡ overridden (Dict.get k (change "l1").add_attrs) (
              if any (λ j. j == k) (change "l1").remove_attrs
              then none
              else Dict.get k printer.attrs))
unfolding Dict.get
modify_attrs_exact_example =
    modify_attrs_exact (change "l1") printer service service-found refl refl
      (λ e. ground (arith, eq_iff "l1" "", e)) (refl, tt)

register-not_owner_example :
    register grantor "h" 9001 "c9" (renewal "") service ≡ (err not_owner, service)
register-not_owner_example =
    register-not_owner grantor "h" 9001 "c9" (renewal "") printer service refl service-found
      (λ e. ground (arith, eq_iff "" "l1", e))
