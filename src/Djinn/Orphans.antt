-- ===== src/Djinn/Orphans.antt =====
-- The registry keeps exactly the entries whose leases live, through its cascade and its orphan sweep
-- (djinn/crates/coordin8-djinn/src/services.rs and sweep.rs).
use coordin.Common.{
  String, true, false, Option, none, some, List, [], ◌∷◌, map, any, length, ok, ◌≡◌, refl, sym,
  arith, ◌==◌, if◌then◌else◌, eq_iff, eq_refl, Bool-cases, Option-cases, inl, inr, for_each, In,
  here, there, ap, filter-In, In-filter,
}
use coordin.Common.Dict
use coordin.Common.Dict.{Dict}
use coordin.Lease.{LeaseRecord}
use coordin.Lease.Manager.{get}
use coordin.Lease.Store.{get as get_stored}
use coordin.Registry.{RegistryEntry}
use coordin.Registry.Store.{list_all}
use coordin.Registry.Coherence.{IsCoherent}
use coordin.Djinn.Sweep.{Held, contains, OrphanTracker, pass, is_gone, find_leaseless, sweep_once}
use coordin.Djinn.Strikes.{pass-second_strike, find_leaseless_state, find_leaseless_exact}
use coordin.Djinn.RegistryNode.{Node, reclaim, held_of, list, get_lease, sweep}
use coordin.Djinn.Reclaiming.{
  reclaim_all, among, unless_among, reclaim_all-leases, reclaim_all-IsCoherent, reclaim_all-entries,
}

abbrev leases_of : List Held → List String
leases_of = map (λ h. h.lease_id)

for_each-reclaim :
    (hs : List Held) (s : Node)
    → for_each hs (λ held. reclaim held.lease_id) s ≡ reclaim_all (leases_of hs) s
unfolding for_each
for_each-reclaim [] s = refl
for_each-reclaim (h ∷ hs) s = for_each-reclaim hs (reclaim h.lease_id s)

abbrev listed : Node → List Held
listed s = map held_of (Dict.values s.index.entries)

abbrev leaseless : Node → List Held
leaseless s = (find_leaseless get_lease (listed s) s).0

get_lease_state : (id : String) (s : Node) → (get_lease id s).1 ≡ s
unfolding get get_stored
get_lease_state id s = refl

abbrev confirmed : OrphanTracker → Node → List Held
confirmed t s = (pass (leaseless s) t).0

sweep_lem :
    (t : OrphanTracker) (s : Node)
    → sweep t s ≡ (
      ok (length (confirmed t s)),
      (pass (leaseless s) t).1,
      reclaim_all (leases_of (confirmed t s)) s,
    )
unfolding sweep sweep_once list list_all
sweep_lem t s =
    rw
      (
        find_leaseless_state get_lease get_lease_state (listed s) s,
        for_each-reclaim (confirmed t s) s,
      )
      refl

In-among : (l : String) (ls : List String) → In l ls → among l ls ≡ true
unfolding any
In-among l [] m = elim m [ ]
In-among l (k ∷ ks) (here e) = rw (← e, eq_refl l) refl
In-among l (k ∷ ks) (there m) = let rest = In-among l ks m in ground arith

among-In :
    (l : String) (hs : List Held)
    → among l (leases_of hs) ≡ true
    → (h : Held) × (In h hs × (h.lease_id ≡ l))
unfolding any
among-In l [] e = cc
among-In l (h ∷ hs) e = elim (Bool-cases (l == h.lease_id)) [
  | inl x ↦ (h, (here refl, sym ((eq_iff l h.lease_id).0 x)))
  | inr x ↦ let (k, (m, q)) = among-In l hs (ground arith) in (k, (there m, q))
]

In-map : {A B : Type 0} (f : A → B) (xs : List A) {a : A} → In a xs → In (f a) (map f xs)
In-map f [] m = elim m [ ]
In-map f (x ∷ xs) (here e) = here (ap f e)
In-map f (x ∷ xs) (there m) = there (In-map f xs m)

In-values_of_get :
    {A : Type 0} (k : String) (v : A) (m : Dict A) → Dict.get k m ≡ some v → In v (Dict.values m)
In-values_of_get k v m e = In-map (λ x. x.1) m (Dict.get-In k v m e)

is_gone-leased :
    (l : String) (s : Node) (r : LeaseRecord)
    → Dict.get l s.leases.store ≡ some r
    → is_gone (get_lease l s).0 ≡ false
unfolding get get_stored
is_gone-leased l s r e = rw e refl

is_gone-leaseless :
    (l : String) (s : Node) → Dict.get l s.leases.store ≡ none → is_gone (get_lease l s).0 ≡ true
unfolding get get_stored
is_gone-leaseless l s e = rw e refl

-- A pass of the sweep reclaims nothing whose lease is there.
confirmed-leased :
    (t : OrphanTracker) (s : Node) (l : String) (r : LeaseRecord)
    → Dict.get l s.leases.store ≡ some r
    → among l (leases_of (confirmed t s)) ≡ false
unfolding pass
confirmed-leased t s l r e = elim (Bool-cases (among l (leases_of (confirmed t s)))) [
  | inl x ↦
      let (h, (m, q)) = among-In l (confirmed t s) x in
      let gone =
        ((find_leaseless_exact get_lease get_lease_state (listed s) s h).0
          (filter-In (λ k. contains k t.suspects) (leaseless s) h m).0).1 in
      let present = is_gone-leased h.lease_id s r (rw q e) in cc
  | inr x ↦ x
]

leaseless-In :
    (s : Node) (cap : String) (e : RegistryEntry)
    → Dict.get cap s.index.entries ≡ some e
    → Dict.get e.lease_id s.leases.store ≡ none
    → In (held_of e) (leaseless s)
leaseless-In s cap e found gone =
    (find_leaseless_exact get_lease get_lease_state (listed s) s (held_of e)).1 (
      In-map held_of (Dict.values s.index.entries) (In-values_of_get cap e s.index.entries found),
      is_gone-leaseless e.lease_id s gone,
    )

-- The state and the tracker after one pass.
abbrev swept : OrphanTracker → Node → Node
swept t s = reclaim_all (leases_of (confirmed t s)) s

abbrev later : OrphanTracker → Node → OrphanTracker
later t s = (pass (leaseless s) t).1

swept-entries :
    (t : OrphanTracker) (s : Node)
    → IsCoherent s.index
    → (cap : String)
    → Dict.get cap (swept t s).index.entries
      ≡ unless_among (leases_of (confirmed t s)) (Dict.get cap s.index.entries)
swept-entries t s = reclaim_all-entries (leases_of (confirmed t s)) s

swept-leases : (t : OrphanTracker) (s : Node) → (swept t s).leases ≡ s.leases
swept-leases t s = reclaim_all-leases (leases_of (confirmed t s)) s

among-held : (h : Held) (hs : List Held) → In h hs → among h.lease_id (leases_of hs) ≡ true
among-held h hs m = In-among h.lease_id (leases_of hs) (In-map (λ (k : Held). k.lease_id) hs m)

-- What is leaseless and outlives a pass was no suspect.
fresh-survivor :
    (t : OrphanTracker) (s : Node) (h : Held)
    → In h (leaseless s)
    → among h.lease_id (leases_of (confirmed t s)) ≡ false
    → contains h t.suspects ≡ false
unfolding pass
fresh-survivor t s h m survives = elim (Bool-cases (contains h t.suspects)) [
  | inl suspect ↦
      let hit =
        among-held h (confirmed t s)
          (In-filter (λ k. contains k t.suspects) (leaseless s) m suspect) in
      cc
  | inr fresh ↦ fresh
]

-- An entry without its lease that outlives one pass is confirmed by the next one.
confirmed-survivor :
    (t : OrphanTracker) (s : Node) (cap : String) (e : RegistryEntry)
    → IsCoherent s.index
    → Dict.get cap s.index.entries ≡ some e
    → Dict.get e.lease_id s.leases.store ≡ none
    → among e.lease_id (leases_of (confirmed t s)) ≡ false
    → among e.lease_id (leases_of (confirmed (later t s) (swept t s))) ≡ true
confirmed-survivor t s cap e c found gone survives =
    let first = leaseless-In s cap e found gone in
    let still : Dict.get cap (swept t s).index.entries ≡ some e =
      rw (swept-entries t s c cap, found, survives) refl in
    let second = leaseless-In (swept t s) cap e still (rw (swept-leases t s) gone) in
    let fresh = fresh-survivor t s (held_of e) first survives in
    among-held (held_of e) (confirmed (later t s) (swept t s)) (
      (pass-second_strike t (leaseless s) (leaseless (swept t s)) (held_of e)).1
        (second, first, fresh))

-- What a registry keeps whose leases are swept.
abbrev pub leased : Node → Option RegistryEntry → Option RegistryEntry
leased s none = none
leased s (some e) = if Dict.contains_key e.lease_id s.leases.store then some e else none

swept_twice :
    (t : OrphanTracker) (s : Node)
    → IsCoherent s.index
    → (cap : String) (o : Option RegistryEntry) → Dict.get cap s.index.entries ≡ o
    → unless_among
        (leases_of (confirmed (later t s) (swept t s)))
        (unless_among (leases_of (confirmed t s)) o)
      ≡ leased s o
swept_twice t s c cap none found = refl
swept_twice t s c cap (some e) found = elim (Option-cases (Dict.get e.lease_id s.leases.store)) [
  | inl gone ↦ elim (Bool-cases (among e.lease_id (leases_of (confirmed t s)))) [
    | inl first ↦ rw (first, gone) refl
    | inr survives ↦ rw (survives, confirmed-survivor t s cap e c found gone survives, gone) refl
  ]
  | inr (r, present) ↦
      rw
        (
          confirmed-leased t s e.lease_id r present,
          confirmed-leased (later t s) (swept t s) e.lease_id r (rw (swept-leases t s) present),
          present,
        )
        refl
]

-- Two passes of the orphan sweep in a row, whatever was suspected before, leave in a coherent
-- registry exactly the entries whose leases are in the lease store: an orphan is reclaimed by one of
-- them, and nothing that is leased is lost.
pub sweep-TwoPasses :
    (t : OrphanTracker) (s : Node)
    → IsCoherent s.index
    → (cap : String)
    → Dict.get cap (sweep (sweep t s).1 (sweep t s).2).2.index.entries
      ≡ leased s (Dict.get cap s.index.entries)
sweep-TwoPasses t s c cap = rw (sweep_lem t s) (
    rw (sweep_lem (later t s) (swept t s)) (
      rw
        (
          swept-entries (later t s) (swept t s)
              (reclaim_all-IsCoherent (leases_of (confirmed t s)) s c) cap,
          swept-entries t s c cap,
        )
        (swept_twice t s c cap (Dict.get cap s.index.entries) refl)))
