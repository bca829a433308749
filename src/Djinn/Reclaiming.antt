-- ===== src/Djinn/Reclaiming.antt =====
-- What reclaiming leases leaves in a registry (djinn/crates/coordin8-djinn/src/services.rs).
use coordin.Common.{
  String, Bool, Option, none, some, List, [], ◌∷◌, any, Result, ok, err, ◌≡◌, refl, ◌==◌,
  if◌then◌else◌, Bool-cases, Option-cases, inl, inr,
}
use coordin.Common.Dict
use coordin.Common.Dict.{Dict}
use coordin.Error.{Error}
use coordin.Registry.{RegistryEntry}
use coordin.Registry.Store.{remove_by_lease}
use coordin.Registry.Index.{unregister_by_lease}
use coordin.Registry.Coherence.{IsCoherent, remove_by_lease-IsCoherent, remove_by_lease_exact}
use coordin.Djinn.RegistryNode.{Node, tell, reclaim}

tell-index : (r : Result Error (Option RegistryEntry)) (s : Node) → (tell r s).index ≡ s.index
tell-index (ok (some e)) s = refl
tell-index (ok none) s = refl
tell-index (err e) s = refl

tell-leases : (r : Result Error (Option RegistryEntry)) (s : Node) → (tell r s).leases ≡ s.leases
tell-leases (ok (some e)) s = refl
tell-leases (ok none) s = refl
tell-leases (err e) s = refl

reclaim-index : (l : String) (s : Node) → (reclaim l s).index ≡ (remove_by_lease l s.index).1
unfolding reclaim unregister_by_lease
reclaim-index l s =
    tell-index (remove_by_lease l s.index).0 (record s { index = (remove_by_lease l s.index).1 })

reclaim-leases : (l : String) (s : Node) → (reclaim l s).leases ≡ s.leases
unfolding reclaim unregister_by_lease
reclaim-leases l s =
    tell-leases (remove_by_lease l s.index).0 (record s { index = (remove_by_lease l s.index).1 })

abbrev pub reclaim_all : List String → Node → Node
reclaim_all [] s = s
reclaim_all (l ∷ ls) s = reclaim_all ls (reclaim l s)

abbrev pub among : String → List String → Bool
among l = any (λ k. l == k)

-- An entry unless its lease is one of `ls`.
abbrev pub unless_among : List String → Option RegistryEntry → Option RegistryEntry
unless_among ls none = none
unless_among ls (some e) = if among e.lease_id ls then none else some e

pub reclaim_all-leases : (ls : List String) (s : Node) → (reclaim_all ls s).leases ≡ s.leases
reclaim_all-leases [] s = refl
reclaim_all-leases (l ∷ ls) s = rw (reclaim_all-leases ls (reclaim l s), reclaim-leases l s) refl

pub reclaim_all-IsCoherent :
    (ls : List String) (s : Node) → IsCoherent s.index → IsCoherent (reclaim_all ls s).index
reclaim_all-IsCoherent [] s c = c
reclaim_all-IsCoherent (l ∷ ls) s c =
    reclaim_all-IsCoherent ls (reclaim l s)
      (rw (reclaim-index l s) (remove_by_lease-IsCoherent l s.index c))

unless_among-cons :
    (l : String) (ls : List String) (o : Option RegistryEntry)
    → unless_among ls (elim o [ none ↦ none | some e ↦ if e.lease_id == l then none else some e ])
      ≡ unless_among (l ∷ ls) o
unfolding any
unless_among-cons l ls none = refl
unless_among-cons l ls (some e) = elim (Bool-cases (e.lease_id == l)) [
  | inl x ↦ rw (x, any) refl
  | inr x ↦ rw (x, any) refl
]

pub reclaim_all-entries :
    (ls : List String) (s : Node)
    → IsCoherent s.index
    → (cap : String)
    → Dict.get cap (reclaim_all ls s).index.entries ≡ unless_among ls (Dict.get cap s.index.entries)
unfolding any
reclaim_all-entries [] s c cap = elim (Option-cases (Dict.get cap s.index.entries)) [
  | inl e ↦ rw e refl
  | inr (f, e) ↦ rw e refl
]
reclaim_all-entries (l ∷ ls) s c cap =
    rw
      (reclaim_all-entries ls (reclaim l s)
        (rw (reclaim-index l s) (remove_by_lease-IsCoherent l s.index c)) cap)
      (rw (reclaim-index l s) (
        rw (remove_by_lease_exact l s.index c cap)
          (unless_among-cons l ls (Dict.get cap s.index.entries))))
