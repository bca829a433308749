-- ===== src/Dynamo/Matching.antt =====
-- A table beside a map in memory, key by key, for any relation between a value and the row that holds
-- it under a key.
use coordin.Common.{
  String, Option, none, some, Result, ok, err, ◌≡◌, refl, ◌⊎◌, inl, inr, Bool-cases, if◌then◌else◌,
  ◌==◌, eq_iff, true, subst,
}
use coordin.Common.Dict
use coordin.Common.Dict.{Dict, get-insert, get-remove}
use coordin.Dynamo.{Item, SdkError}
use coordin.Dynamo.Tables.{IsOk, IsRefusal}

pub IsOk-eq : {A : Type 0} (r : Result SdkError A) → IsOk r → (a : A) × (r ≡ ok a)
IsOk-eq (ok a) h = (a, refl)
IsOk-eq (err e) h = elim h [ ]

pub IsRefusal-eq :
    {A : Type 0} (r : Result SdkError A)
    → IsRefusal r
    → (e : SdkError) × ((r ≡ err e) × (e.is_conditional_check_failed ≡ true))
IsRefusal-eq (ok a) h = elim h [ ]
IsRefusal-eq (err e) h = (e, (refl, h))

module _ {V : Type 0} (Holds : String → V → Item → Type 0) where
  -- A row and an entry: neither is there, or the row holds the entry.
  abbrev pub Matches : String → Option Item → Option V → Type 0
  Matches k none none = Unit
  Matches k (some item) (some v) = Holds k v item
  Matches k _ _ = ⊥

  -- The table holds what the map holds.
  abbrev pub Same : {W : Type 0} → (W → String → Option Item) → W → Dict V → Type 0
  Same rows w m = (k : String) → Matches k (rows w k) (Dict.get k m)

  pub Matches-cases :
      (k : String) (row : Option Item) (entry : Option V)
      → Matches k row entry
      → ((row ≡ none) × (entry ≡ none))
        ⊎ ((item : Item) × ((v : V) × ((row ≡ some item) × ((entry ≡ some v) × Holds k v item))))
  Matches-cases k none none h = inl (refl, refl)
  Matches-cases k none (some v) h = elim h [ ]
  Matches-cases k (some item) none h = elim h [ ]
  Matches-cases k (some item) (some v) h = inr (item, (v, (refl, (refl, h))))

  module _ {W : Type 0} (rows : W → String → Option Item) where
    pub Same-insert :
        (id : String) (item : Item) (v : V) (w t : W) (m : Dict V)
        → ((j : String) → rows t j ≡ (if id == j then some item else rows w j))
        → Holds id v item
        → Same rows w m
        → Same rows t (Dict.insert id v m)
    Same-insert id item v w t m changed held h k = elim (Bool-cases (id == k)) [
      | inl e ↦ rw (changed, get-insert, e) (subst (λ j. Holds j v item) ((eq_iff id k).0 e) held)
      | inr e ↦ rw (changed, get-insert, e) (h k)
    ]

    pub Same-remove :
        (id : String) (w t : W) (m : Dict V)
        → ((j : String) → rows t j ≡ (if id == j then none else rows w j))
        → Same rows w m
        → Same rows t (Dict.remove id m)
    Same-remove id w t m changed h k = elim (Bool-cases (id == k)) [
      | inl e ↦ rw (changed, get-remove, e) tt
      | inr e ↦ rw (changed, get-remove, e) (h k)
    ]

    pub Same-kept :
        (w t : W) (m : Dict V)
        → ((j : String) → rows t j ≡ rows w j)
        → Same rows w m
        → Same rows t m
    Same-kept w t m kept h k = rw kept (h k)
