-- ===== src/Common/Dict.antt =====
-- `DashMap` and `HashMap` with string keys, as association lists whose keys are distinct. The order
-- of iteration is unspecified in the program; here the last insertion comes first.
use Prim.Native.String.{String}
use mathlib.Core.Path.{◌≡◌}
use mathlib.Core.Logic.{inl, inr}
use mathlib.Core.Bool.{Bool}
use mathlib.Core.List.{List, [], ◌∷◌, map}
use mathlib.Core.Option.{Option, none, some}
use native.Mathlib.Omega.{arith}
use text.Mathlib.Text.{◌==◌}
use text.Mathlib.TextEquality.{eq_iff}
use text.Mathlib.TextPositions.{eq_refl}
use coordin.Common.Bools.{if◌then◌else◌, Bool-cases, is_some}
use coordin.Common.Lists.{In, here, there}

abbrev pub Dict {ℓ} : Type ℓ → Type ℓ
Dict V = List (String × V)

module _ {ℓ} {V : Type ℓ} where
  unfoldable pub get : String → Dict V → Option V
  get k [] = none
  get k ((j, v) ∷ m) = if j == k then some v else get k m

  unfoldable pub remove : String → Dict V → Dict V
  remove k [] = []
  remove k ((j, v) ∷ m) = let rest = remove k m in if j == k then rest else (j, v) ∷ rest

  unfoldable pub insert : String → V → Dict V → Dict V
  insert k v m = (k, v) ∷ remove k m

  abbrev pub contains_key : String → Dict V → Bool
  contains_key k m = is_some (get k m)

  abbrev pub values : Dict V → List V
  values = map (λ e. e.1)

  -- No key stands twice.
  abbrev pub IsDict : Dict V → Type ℓ
  IsDict [] = Unit
  IsDict ((k, v) ∷ m) = (get k m ≡ none) × IsDict m

  pub get-remove :
      (k j : String) (m : Dict V) → get j (remove k m) ≡ (if k == j then none else get j m)
  unfolding get remove
  get-remove k j [] = ground arith
  get-remove k j ((i, v) ∷ m) = ground (arith, get-remove k j m, eq_iff i k, eq_iff i j, eq_iff k j)

  pub get-insert :
      (k j : String) (v : V) (m : Dict V)
      → get j (insert k v m) ≡ (if k == j then some v else get j m)
  unfolding get insert
  get-insert k j v m = simp get-remove (ground arith)

  pub remove-IsDict : (k : String) (m : Dict V) → IsDict m → IsDict (remove k m)
  unfolding get remove
  remove-IsDict k [] h = tt
  remove-IsDict k ((i, v) ∷ m) h =
      ground (arith, remove-IsDict k m h.1, get-remove k i m, eq_iff i k, eq_iff k i)

  pub insert-IsDict : (k : String) (v : V) (m : Dict V) → IsDict m → IsDict (insert k v m)
  unfolding insert
  insert-IsDict k v m h = (rw (get-remove, eq_refl), remove-IsDict k m h)

  -- What iteration meets is what a lookup finds.
  pub get-In : (k : String) (v : V) (m : Dict V) → get k m ≡ some v → In (k, v) m
  unfolding get
  get-In k v [] h = cc
  get-In k v ((i, w) ∷ m) h = elim (Bool-cases (i == k)) [
    | inl e ↦
        let i_eq : i ≡ k = (eq_iff i k).0 e in
        let w_eq : w ≡ v = ground arith in here (rw (i_eq, w_eq))
    | inr e ↦ there (get-In k v m (ground arith))
  ]

  pub In-get : (k : String) (v : V) (m : Dict V) → IsDict m → In (k, v) m → get k m ≡ some v
  unfolding get
  In-get k v [] h i = elim i [ ]
  In-get k v ((i, w) ∷ m) h (here e) = ground (arith, eq_iff i k, e)
  In-get k v ((i, w) ∷ m) h (there p) = ground (arith, In-get k v m h.1 p, eq_iff i k)
