-- ===== src/Djinn/Sweep.antt =====
-- The orphan sweep (djinn/crates/coordin8-djinn/src/sweep.rs). A `HashSet` is a list in which nothing
-- stands twice. `S` is the state of the service: what lists its resources, what looks a lease up and
-- what reclaims a resource are arguments, as in the code.
use coordin.Common.{
  ℕ, String, Bool, true, false, Option, none, some, List, [], ◌∷◌, filter, any, not, length, Result,
  ok, err, ◌&&◌, ◌==◌, if◌then◌else◌, for_each,
}
use coordin.Error.{Error, Method}
use coordin.Lease.{LeaseRecord}

pub record Held : Type 0 where
  pub lease_id : String
  pub id : String
  pub kind : String

-- The derived equality.
abbrev pub same_held : Held → Held → Bool
same_held a b = a.lease_id == b.lease_id && (a.id == b.id && a.kind == b.kind)

abbrev pub contains : Held → List Held → Bool
contains h set = any (λ x. same_held x h) set

unfoldable pub insert : Held → List Held → List Held
insert h set = if contains h set then set else h ∷ set

pub record OrphanTracker : Type 0 where
  pub suspects : List Held

abbrev pub new_tracker : OrphanTracker
new_tracker = record { suspects = [] }

-- The confirmed ones, and the tracker for the next pass.
unfoldable pub pass : List Held → OrphanTracker → List Held × OrphanTracker
pass leaseless t = (
  filter (λ h. contains h t.suspects) leaseless,
  record { suspects = filter (λ h. not (contains h t.suspects)) leaseless },
)

-- A lookup that fails counts as present.
abbrev pub is_gone : Result Error (Option LeaseRecord) → Bool
is_gone (ok none) = true
is_gone (ok (some r)) = false
is_gone (err e) = false

module _ {S : Type 0} (get_lease : String → Method S (Option LeaseRecord)) where
  -- The loop over what is listed.
  unfoldable pub find_leaseless : List Held → S → List Held × S
  find_leaseless [] s = ([], s)
  find_leaseless (h ∷ hs) s =
      let (found, t) = get_lease h.lease_id s in
      let (rest, u) = find_leaseless hs t in (if is_gone found then insert h rest else rest, u)

  abbrev swept :
      (Held → S → S)
      → OrphanTracker
      → Result Error (List Held) × S
      → Result Error ℕ × OrphanTracker × S
  swept reclaim t (err e, s) = (err e, t, s)
  swept reclaim t (ok listed, s) =
      let (leaseless, u) = find_leaseless listed s in
      let (confirmed, later) = pass leaseless t in
      (ok (length confirmed), later, for_each confirmed reclaim u)

  unfoldable pub sweep_once :
      Method S (List Held) → (Held → S → S) → OrphanTracker → S → Result Error ℕ × OrphanTracker × S
  sweep_once list reclaim t s = swept reclaim t (list s)
