-- ===== src/Djinn/Strikes.antt =====
-- A resource is reclaimed on its second strike (djinn/crates/coordin8-djinn/src/sweep.rs).
use coordin.Common.{
  String, Bool, true, false, Option, List, [], ◌∷◌, any, not, ◌≡◌, ◌↔◌, refl, sym, arith,
  if◌then◌else◌, eq_iff, Bool-cases, inl, inr, ◌⊎◌, filter-In, In-filter, In, here, there,
}
use coordin.Error.{Method}
use coordin.Lease.{LeaseRecord}
use coordin.Djinn.Sweep.{
  Held, same_held, contains, insert, OrphanTracker, pass, is_gone, find_leaseless,
}

same_held-eq : (a b : Held) → same_held a b ≡ true → a ≡ b
same_held-eq a b h =
    ground (arith, eq_iff a.lease_id b.lease_id, eq_iff a.id b.id, eq_iff a.kind b.kind)

same_held_refl : (a : Held) → same_held a a ≡ true
same_held_refl a =
    ground (arith, eq_iff a.lease_id a.lease_id, eq_iff a.id a.id, eq_iff a.kind a.kind)

contains-In : (h : Held) (set : List Held) → contains h set ≡ true → In h set
unfolding any
contains-In h [] e = cc
contains-In h (x ∷ xs) e = elim (Bool-cases (same_held x h)) [
  | inl same ↦ here (sym (same_held-eq x h same))
  | inr other ↦ there (contains-In h xs (ground arith))
]

In-contains : (h : Held) (set : List Held) → In h set → contains h set ≡ true
unfolding any
In-contains h [] m = elim m [ ]
In-contains h (x ∷ xs) (here e) = let same = same_held_refl h in rw (← e, same) refl
In-contains h (x ∷ xs) (there m) = let rest = In-contains h xs m in ground arith

In-insert_here : (h : Held) (set : List Held) → In h (insert h set)
unfolding insert
In-insert_here h set = elim (Bool-cases (contains h set)) [
  | inl e ↦ rw e (contains-In h set e)
  | inr e ↦ rw e (here refl)
]

In-insert : (h k : Held) (set : List Held) → In k set → In k (insert h set)
unfolding insert
In-insert h k set m = elim (Bool-cases (contains h set)) [ inl e ↦ rw e m | inr e ↦ rw e (there m) ]

In-cons_unless :
    (b : Bool) (h k : Held) (set : List Held)
    → In k (if b then set else h ∷ set)
    → (k ≡ h) ⊎ In k set
In-cons_unless true h k set m = inr m
In-cons_unless false h k set (here e) = inl e
In-cons_unless false h k set (there m) = inr m

insert-In : (h k : Held) (set : List Held) → In k (insert h set) → (k ≡ h) ⊎ In k set
unfolding insert
insert-In h k set m = In-cons_unless (contains h set) h k set m

-- A resource is reclaimed on the second of two passes exactly if both passes found it without its
-- lease and it was no suspect before the first one, which would have reclaimed it.
pub pass-second_strike :
    (t : OrphanTracker) (first second : List Held) (h : Held)
    → In h (pass second (pass first t).1).0
      ↔ (In h second × In h first × (contains h t.suspects ≡ false))
unfolding pass
pass-second_strike t first second h = (
  λ m.
      let r = filter-In (λ k. contains k (pass first t).1.suspects) second h m in
      let q =
        filter-In (λ k. not (contains k t.suspects)) first h
          (contains-In h (pass first t).1.suspects r.1) in
      (r.0, q.0, ground arith),
  λ (a, b, fresh).
      In-filter (λ k. contains k (pass first t).1.suspects) second a
        (In-contains h (pass first t).1.suspects
          (In-filter (λ k. not (contains k t.suspects)) first b (rw fresh refl))),
)

module _ {S : Type 0} (get_lease : String → Method S (Option LeaseRecord)) where
  -- Where a lookup changes nothing, the search for leaseless resources changes nothing.
  pub find_leaseless_state :
      ((id : String) (s : S) → (get_lease id s).1 ≡ s)
      → (hs : List Held) (s : S) → (find_leaseless get_lease hs s).1 ≡ s
  unfolding find_leaseless
  find_leaseless_state still [] s = refl
  find_leaseless_state still (h ∷ hs) s = rw (still h.lease_id s) (find_leaseless_state still hs s)

  In-insert_if :
      (b : Bool) (h k : Held) (set hs : List Held) (gone : Held → Bool)
      → gone h ≡ b
      → (In k set ↔ (In k hs × (gone k ≡ true)))
      → (In k (if b then insert h set else set) ↔ (In k (h ∷ hs) × (gone k ≡ true)))
  In-insert_if true h k set hs gone e rest = (
    λ m. elim (insert-In h k set m) [
      | inl same ↦ (here same, rw same e)
      | inr old ↦ (there (rest.0 old).0, (rest.0 old).1)
    ],
    λ (m, g). elim m [
      | here same ↦ rw same (In-insert_here h set)
      | there m ↦ In-insert h k set (rest.1 (m, g))
    ],
  )
  In-insert_if false h k set hs gone e rest = (
    λ m. (there (rest.0 m).0, (rest.0 m).1),
    λ (m, g). elim m [
      | here same ↦ (let e2 : gone k ≡ false = rw same e in cc)
      | there m ↦ rest.1 (m, g)
    ],
  )

  -- Exactly the listed resources are found whose lookup succeeds and finds no lease.
  pub find_leaseless_exact :
      ((id : String) (s : S) → (get_lease id s).1 ≡ s)
      → (hs : List Held) (s : S) (k : Held)
      → In k (find_leaseless get_lease hs s).0
        ↔ (In k hs × (is_gone (get_lease k.lease_id s).0 ≡ true))
  unfolding find_leaseless
  find_leaseless_exact still [] s k = (λ m. elim m [ ], λ (m, g). elim m [ ])
  find_leaseless_exact still (h ∷ hs) s k = rw (still h.lease_id s) (
      In-insert_if (is_gone (get_lease h.lease_id s).0) h k (find_leaseless get_lease hs s).0 hs
        (λ j. is_gone (get_lease j.lease_id s).0) refl (find_leaseless_exact still hs s k))
