-- ===== src/Lease/History.antt =====
-- Any sequence of calls on a lease manager: what its clients do and the rounds of its reaper
-- (djinn/crates/coordin8-lease/src/manager.rs and reaper.rs).
use coordin.Common.{
  ℕ, String, false, some, List, [], ◌∷◌, ◌≡◌, ◌≢◌, arith, eq_iff, Result-cases, inl, inr, All,
}
use coordin.Common.Dict
use coordin.Common.Dict.{get-remove, get-insert}
use coordin.Common.Keyed.{get-IsKeyed, insert-IsKeyed, remove-IsKeyed}
use coordin.Lease.{Chrono, LeaseRecord, is_expired, negotiate}
use coordin.Lease.Store
use coordin.Lease.Store.{expiry_for}
use coordin.Lease.Manager.{LeaseManager, grant, renew, cancel, reap}
use coordin.Lease.Reaping.{IsStore, reap_exact, reap-IsStore}
use coordin.Lease.Renewal.{
  grant-IsStore, unknown, late, out_of_range, renewed, renew-Renewal, cancel_lem,
}

-- A call, with the time at which it runs and the id that a grant draws.
pub data Call : Type 0 where
  grants : ℕ → String → String → ℕ → Call
  renews : ℕ → String → ℕ → Call
  cancels : String → Call
  reaps : ℕ → Call

-- The call neither names the lease `k` nor is a round of the reaper at which `r` is expired.
abbrev pub Spares : String → LeaseRecord → Call → Type 0
Spares k r (grants now uuid resource ttl) = uuid ≢ k
Spares k r (renews now j ttl) = j ≢ k
Spares k r (cancels j) = j ≢ k
Spares k r (reaps now) = is_expired now r ≡ false

module _ (chrono : Chrono) where
  unfoldable pub step : Call → LeaseManager → LeaseManager
  step (grants now uuid resource ttl) s = (grant chrono now uuid resource ttl s).1
  step (renews now k ttl) s = (renew chrono now k ttl s).1
  step (cancels k) s = (cancel k s).1
  step (reaps now) s = reap now s

  unfoldable pub run : List Call → LeaseManager → LeaseManager
  run [] s = s
  run (c ∷ cs) s = run cs (step c s)

  renew-IsStore :
      (now : ℕ) (k : String) (ttl : ℕ) (s : LeaseManager)
      → IsStore s.store
      → IsStore (renew chrono now k ttl s).1.store
  renew-IsStore now k ttl s w = elim (renew-Renewal chrono now k ttl s) [
    | unknown h e same ↦ rw same w
    | late r h x e same ↦ rw same w
    | out_of_range z x e same ↦ rw same w
    | renewed r t h x y e same ↦ rw same (
        insert-IsKeyed _ k _ s.store (get-IsKeyed (λ (q : LeaseRecord). q.lease_id) k r s.store w h)
          w)
  ]

  store-cancel : (k : String) (s : LeaseManager) → (cancel k s).1.store ≡ Dict.remove k s.store
  unfolding cancel Store.get Store.cancel
  store-cancel k s = ground arith

  cancel-IsStore : (k : String) (s : LeaseManager) → IsStore s.store → IsStore (cancel k s).1.store
  cancel-IsStore k s w =
      rw (store-cancel k s) (remove-IsKeyed (λ (r : LeaseRecord). r.lease_id) k s.store w)

  step-IsStore : (c : Call) (s : LeaseManager) → IsStore s.store → IsStore (step c s).store
  unfolding step
  step-IsStore (grants now uuid resource ttl) s w = grant-IsStore chrono now uuid resource ttl s w
  step-IsStore (renews now k ttl) s w = renew-IsStore now k ttl s w
  step-IsStore (cancels k) s w = cancel-IsStore k s w
  step-IsStore (reaps now) s w = reap-IsStore now s w

  -- Any calls and rounds of the reaper in any order keep a store well formed: each lease stands
  -- under its own id, and no id stands twice.
  pub run-IsStore : (cs : List Call) (s : LeaseManager) → IsStore s.store → IsStore (run cs s).store
  unfolding run
  run-IsStore [] s w = w
  run-IsStore (c ∷ cs) s w = run-IsStore cs (step c s) (step-IsStore c s w)

  renew-keeps :
      (now : ℕ) (j : String) (ttl : ℕ) (s : LeaseManager) (k : String) (r : LeaseRecord)
      → j ≢ k
      → Dict.get k s.store ≡ some r
      → Dict.get k (renew chrono now j ttl s).1.store ≡ some r
  renew-keeps now j ttl s k r p h = elim (renew-Renewal chrono now j ttl s) [
    | unknown g e same ↦ rw same h
    | late q g x e same ↦ rw same h
    | out_of_range z x e same ↦ rw same h
    | renewed q t g x y e same ↦ rw same (rw get-insert (ground (arith, eq_iff j k)))
  ]

  step-keeps :
      (c : Call) (s : LeaseManager) (k : String) (r : LeaseRecord)
      → IsStore s.store
      → Spares k r c
      → Dict.get k s.store ≡ some r
      → Dict.get k (step c s).store ≡ some r
  unfolding step
  step-keeps (grants now uuid resource ttl) s k r w p h =
      unfold grant Store.create in
      elim (Result-cases (expiry_for chrono now (negotiate s.config ttl))) [
        | inl (t, x) ↦ rw (x, Store.create) (rw get-insert (ground (arith, eq_iff uuid k)))
        | inr (z, x) ↦ rw (x, Store.create) h
      ]
  step-keeps (renews now j ttl) s k r w p h = renew-keeps now j ttl s k r p h
  step-keeps (cancels j) s k r w p h = rw ((cancel_lem j s).0 k) (ground (arith, eq_iff j k))
  step-keeps (reaps now) s k r w p h = rw ((reap_exact now s w).0 k) (rw (h, p))

  -- No live lease is lost: a lease stays in the store, unchanged, through any calls that do not name
  -- it and any rounds of the reaper at times at which it is not expired.
  pub run_keeps_live :
      (cs : List Call) (s : LeaseManager) (k : String) (r : LeaseRecord)
      → IsStore s.store
      → Dict.get k s.store ≡ some r
      → All (Spares k r) cs
      → Dict.get k (run cs s).store ≡ some r
  unfolding run
  run_keeps_live [] s k r w h a = h
  run_keeps_live (c ∷ cs) s k r w h a =
      run_keeps_live cs (step c s) k r (step-IsStore c s w) (step-keeps c s k r w a.0 h) a.1
