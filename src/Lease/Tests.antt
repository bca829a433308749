-- ===== src/Lease/Tests.antt =====
-- Runs of the lease modules, and the theorems at concrete inputs.
use coordin.Common.{
  replicate, ℕ, ◌+◌, ◌*◌, ◌≤◌, ◌≡◌, ◌↔◌, refl, String, none, some, List, [], ◌∷◌, ◌++◌, ok, arith,
  filter, map, if◌then◌else◌, eq_iff,
}
use coordin.Common.Dict
use coordin.Lease.{
  Chrono, LeaseRecord, LeaseConfig, expired, default_config, checked_expiry, is_expired, negotiate,
}
use coordin.Lease.Store
use coordin.Lease.Store.{expiry_for}
use coordin.Lease.Manager.{LeaseManager, grant, renew, reap, remove_unchanged}
use coordin.Lease.Policy.{IsExact, negotiate_within_cap}
use coordin.Lease.Reaping.{IsStore, reap_exact, remove_unchanged-keeps}
use coordin.Lease.Renewal.{Renewal, renew-Renewal}
use coordin.Lease.History.{Call, grants, cancels, reaps, run, run-IsStore, run_keeps_live}
use coordin.Lease.Service.{RenewItem}

-- Every date can be represented.
abbrev calendar : Chrono
calendar = record {
  try_seconds = λ n. some (n * 1_000_000_000);
  checked_add_signed = λ a d. some (a + d);
  max_utc = 0xffff_ffff_ffff_ffff_ffff;
}

calendar-IsExact : IsExact calendar
calendar-IsExact = record { seconds = λ n d h. ground arith; sum = λ a d t h. ground arith }

abbrev hour : LeaseConfig
hour = default_config

abbrev manager : LeaseManager
manager = record { store = []; config = hour; expiry_tx = [] }

abbrev worker : LeaseRecord
worker = record {
  lease_id = "l1";
  resource_id = "worker-7";
  granted_at = 5;
  expires_at = 30_000_000_005;
  ttl_seconds = 30;
}

abbrev granted : LeaseManager
granted = record manager { store = ("l1", worker) ∷ [] }

grant_run : grant calendar 5 "l1" "worker-7" 30 manager ≡ (ok worker, granted)
unfolding grant Store.create expiry_for checked_expiry negotiate Dict.insert Dict.remove
grant_run = refl

granted-IsStore : IsStore granted.store
unfolding Dict.get
granted-IsStore = (refl, refl, tt)

negotiate_within_cap_example : ((requested : ℕ) → negotiate hour requested ≤ 3600) ↔ (300 ≤ 3600)
negotiate_within_cap_example = negotiate_within_cap hour 3600 refl

abbrev uncapped : LeaseConfig
uncapped = record { max_ttl = none; preferred_ttl = 300 }

reap_exact_example :
    ((k : String)
      → Dict.get k (reap 40_000_000_000 granted).store ≡ elim (Dict.get k granted.store) [
        | none ↦ none
        | some r ↦ if is_expired 40_000_000_000 r then none else some r
      ])
    × ((reap 40_000_000_000 granted).expiry_tx
        ≡ granted.expiry_tx
          ++ map
              (λ r. record { lease_record = r; reason = expired })
              (filter (is_expired 40_000_000_000) (Dict.values granted.store)))
reap_exact_example = reap_exact 40_000_000_000 granted granted-IsStore

abbrev stale : LeaseRecord
stale = record worker { expires_at = 7 }

remove_unchanged-keeps_example :
    Dict.get "l1" (remove_unchanged (stale ∷ []) granted).1.store ≡ some worker
unfolding Dict.get
remove_unchanged-keeps_example =
    remove_unchanged-keeps (stale ∷ []) granted "l1" worker refl ((λ e. omega arith), tt)

renew-Renewal_example :
    Renewal calendar 9 "l1" 60 granted
      (renew calendar 9 "l1" 60 granted).0
      (renew calendar 9 "l1" 60 granted).1
renew-Renewal_example = renew-Renewal calendar 9 "l1" 60 granted

abbrev history : List Call
history = grants 6 "l2" "worker-8" 30 ∷ reaps 20_000_000_000 ∷ cancels "l2" ∷ []

run-IsStore_example : IsStore (run calendar history granted).store
run-IsStore_example = run-IsStore calendar history granted granted-IsStore

run_keeps_live_example : Dict.get "l1" (run calendar history granted).store ≡ some worker
unfolding Dict.get is_expired
run_keeps_live_example =
    run_keeps_live calendar history granted "l1" worker granted-IsStore refl
      (ground (arith, eq_iff "l2" "l1"), (refl, (ground (arith, eq_iff "l2" "l1"), tt)))

abbrev many : List RenewItem
many = replicate 1001 (record { lease_id = "l1"; ttl_seconds = 60 })
