-- ===== src/Common/Keyed.antt =====
-- Dictionaries whose values carry their own key, as every store of records does.
use Prim.Native.String.{String}
use mathlib.Core.Path.{◌≡◌, refl, ap}
use mathlib.Core.Logic.{◌≢◌}
use mathlib.Core.Bool.{Bool, true, false, ◌&&◌}
use mathlib.Core.List.{List, [], ◌∷◌}
use mathlib.Core.Option.{none, some}
use native.Mathlib.Omega.{arith}
use text.Mathlib.Text.{◌==◌}
use text.Mathlib.TextEquality.{eq_iff}
use coordin.Common.Lists.{In, here, there, All, keep, filter, any, filter-In, All-of_In}
use coordin.Common.Dict.{Dict, get, insert, remove, values, IsDict, get-remove}

module _ {ℓ} {V : Type ℓ} (id : V → String) where
  -- Each entry stands under its value's own key, and no key stands twice.
  abbrev pub IsKeyed : Dict V → Type ℓ
  IsKeyed [] = Unit
  IsKeyed ((k, v) ∷ m) = (id v ≡ k) × (get k m ≡ none) × IsKeyed m

  -- No two values have the same key.
  abbrev pub Distinct : List V → Type ℓ
  Distinct [] = Unit
  Distinct (v ∷ vs) = All (λ w. id w ≢ id v) vs × Distinct vs

  pub remove-IsKeyed : (k : String) (m : Dict V) → IsKeyed m → IsKeyed (remove k m)
  unfolding get remove
  remove-IsKeyed k [] h = tt
  remove-IsKeyed k ((i, v) ∷ m) h =
      ground (arith, remove-IsKeyed k m h.2, get-remove k i m, eq_iff i k, eq_iff k i)

  pub insert-IsKeyed :
      (k : String) (v : V) (m : Dict V) → id v ≡ k → IsKeyed m → IsKeyed (insert k v m)
  unfolding insert
  insert-IsKeyed k v m e h = (e, ground (arith, get-remove k k m, eq_iff k k), remove-IsKeyed k m h)

  pub get-IsKeyed : (k : String) (v : V) (m : Dict V) → IsKeyed m → get k m ≡ some v → id v ≡ k
  unfolding get
  get-IsKeyed k v [] h e = cc
  get-IsKeyed k v ((i, w) ∷ m) h e = ground (arith, get-IsKeyed k v m h.2, eq_iff i k)

  pub IsKeyed-IsDict : (m : Dict V) → IsKeyed m → IsDict m
  IsKeyed-IsDict [] h = tt
  IsKeyed-IsDict ((i, w) ∷ m) h = (h.1, IsKeyed-IsDict m h.2)

  pub In-values : (v : V) (m : Dict V) → IsKeyed m → In v (values m) → get (id v) m ≡ some v
  unfolding get
  In-values v [] h i = elim i [ ]
  In-values v ((i, w) ∷ m) h (here e) = ground (arith, eq_iff i (id v), ap id e)
  In-values v ((i, w) ∷ m) h (there p) = ground (arith, In-values v m h.2 p, eq_iff i (id v))

  -- A value that passes a test is met under its key.
  pub any-values :
      (p : V → Bool) (k : String) (m : Dict V)
      → IsKeyed m
      → any (λ v. id v == k) (filter p (values m)) ≡ elim (get k m) [ none ↦ false | some v ↦ p v ]
  unfolding any filter get
  any-values p k [] h = refl
  any-values p k ((i, v) ∷ m) h = ground (arith, any-values p k m h.2, eq_iff i k, eq_iff (id v) k)

  avoids :
      (p : V → Bool) (k : String) (m : Dict V)
      → IsKeyed m
      → get k m ≡ none
      → All (λ w. id w ≢ k) (filter p (values m))
  unfolding get filter
  avoids p k [] h e = tt
  avoids p k ((i, v) ∷ m) h e = ground (arith, avoids p k m h.2, eq_iff i k)

  keep-Distinct :
      (b : Bool) (v : V) (vs : List V)
      → All (λ w. id w ≢ id v) vs
      → Distinct vs
      → Distinct (keep b v vs)
  keep-Distinct true v vs a d = (a, d)
  keep-Distinct false v vs a d = d

  pub filter-values-Distinct :
      (p : V → Bool) (m : Dict V) → IsKeyed m → Distinct (filter p (values m))
  unfolding filter
  filter-values-Distinct p [] h = tt
  filter-values-Distinct p ((i, v) ∷ m) h =
      keep-Distinct (p v) v (filter p (values m)) (avoids p (id v) m h.2 (rw h.0 h.1))
        (filter-values-Distinct p m h.2)

  -- Each value that iteration meets is the one found under its key.
  pub filter-values-Found :
      (p : V → Bool) (m : Dict V)
      → IsKeyed m
      → All (λ v. get (id v) m ≡ some v) (filter p (values m))
  filter-values-Found p m h =
      All-of_In _ (filter p (values m)) (λ v i. In-values v m h (filter-In p (values m) v i).0)

  values-avoid :
      (k : String) (m : Dict V) → IsKeyed m → get k m ≡ none → All (λ w. id w ≢ k) (values m)
  unfolding get
  values-avoid k [] h e = tt
  values-avoid k ((i, v) ∷ m) h e = ground (arith, values-avoid k m h.2, eq_iff i k)

  pub values-Distinct : (m : Dict V) → IsKeyed m → Distinct (values m)
  values-Distinct [] h = tt
  values-Distinct ((i, v) ∷ m) h = (values-avoid (id v) m h.2 (rw h.0 h.1), values-Distinct m h.2)

  -- A test of the value under a key, by iteration.
  pub any_found :
      (p : V → Bool) (k : String) (m : Dict V)
      → IsKeyed m
      → any (λ v. id v == k && p v) (values m) ≡ elim (get k m) [ none ↦ false | some v ↦ p v ]
  unfolding any get
  any_found p k [] h = refl
  any_found p k ((i, v) ∷ m) h = ground (arith, any_found p k m h.2, eq_iff i k, eq_iff (id v) k)
