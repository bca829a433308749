-- ===== src/Common/Lists.antt =====
-- Lists measured by native numbers, searched and filtered by Boolean tests.
use Prim.Native.Nat.{ℕ, zero, suc, ◌+◌}
use mathlib.Core.Path.{◌≡◌, refl, sym, subst}
use mathlib.Core.Logic.{inl, inr}
use mathlib.Core.Bool.{Bool, true, false, ◌&&◌, ◌||◌}
use mathlib.Core.List.{List, [], ◌∷◌, ◌++◌}
use mathlib.Core.Option.{Option, none, some}
use native.Mathlib.Omega.{arith}
use coordin.Common.Bools.{if◌then◌else◌, Bool-cases}

-- `x` stands in the list.
pub data In {ℓ} {A : Type ℓ} (x : A) : List A → Type ℓ where
  here : {y : A} {ys : List A} → x ≡ y → In x (y ∷ ys)
  there : {y : A} {ys : List A} → In x ys → In x (y ∷ ys)

module _ {ℓ} {A : Type ℓ} where
  abbrev pub length : List A → ℕ
  length [] = 0
  length (x ∷ xs) = suc (length xs)

  abbrev pub take : ℕ → List A → List A
  take zero xs = []
  take (suc n) [] = []
  take (suc n) (x ∷ xs) = x ∷ take n xs

  abbrev pub replicate : ℕ → A → List A
  replicate zero a = []
  replicate (suc n) a = a ∷ replicate n a

  abbrev pub keep : Bool → A → List A → List A
  keep true x rest = x ∷ rest
  keep false x rest = rest

  -- `Iterator::filter`
  unfoldable pub filter : (A → Bool) → List A → List A
  filter p [] = []
  filter p (x ∷ xs) = keep (p x) x (filter p xs)

  -- `Iterator::find`
  unfoldable pub find : (A → Bool) → List A → Option A
  find p [] = none
  find p (x ∷ xs) = let rest = find p xs in if p x then some x else rest

  -- `Iterator::any` and `Iterator::all`
  unfoldable pub any : (A → Bool) → List A → Bool
  any p [] = false
  any p (x ∷ xs) = p x || any p xs

  unfoldable pub all : (A → Bool) → List A → Bool
  all p [] = true
  all p (x ∷ xs) = p x && all p xs

  -- A predicate of every element.
  abbrev pub All {κ} : (A → Type κ) → List A → Type κ
  All P [] = Unit
  All P (x ∷ xs) = P x × All P xs

  pub length-append : (xs ys : List A) → length (xs ++ ys) ≡ length xs + length ys
  length-append [] ys = omega arith
  length-append (x ∷ xs) ys = omega (arith, length-append xs ys)

  pub find-In : (p : A → Bool) (xs : List A) (a : A) → find p xs ≡ some a → In a xs × (p a ≡ true)
  unfolding find
  find-In p [] a h = cc
  find-In p (x ∷ xs) a h = elim (Bool-cases (p x)) [
    | inl e ↦ let same : x ≡ a = ground arith in (here (sym same), rw (← same) e)
    | inr e ↦ let rest = find-In p xs a (ground arith) in (there rest.0, rest.1)
  ]

  -- Nothing is found only if the test fails on every element.
  pub find-none : (p : A → Bool) (xs : List A) {a : A} → find p xs ≡ none → In a xs → p a ≡ false
  unfolding find
  find-none p [] h m = elim m [ ]
  find-none p (x ∷ xs) h (here e) = rw e (ground arith)
  find-none p (x ∷ xs) h (there m) = find-none p xs (ground arith) m

  In-keep :
      (b : Bool) (x a : A) (xs ys : List A) (p : A → Bool)
      → p x ≡ b
      → (In a ys → In a xs × (p a ≡ true))
      → In a (keep b x ys)
      → In a (x ∷ xs) × (p a ≡ true)
  In-keep true x a xs ys p e ih (here q) = (here q, rw q e)
  In-keep true x a xs ys p e ih (there m) = let r = ih m in (there r.0, r.1)
  In-keep false x a xs ys p e ih m = let r = ih m in (there r.0, r.1)

  pub filter-In : (p : A → Bool) (xs : List A) (a : A) → In a (filter p xs) → In a xs × (p a ≡ true)
  unfolding filter
  filter-In p [] a m = elim m [ ]
  filter-In p (x ∷ xs) a m = In-keep (p x) x a xs (filter p xs) p refl (filter-In p xs a) m

  keep-In : (b : Bool) (x a : A) (ys : List A) → In a ys → In a (keep b x ys)
  keep-In true x a ys m = there m
  keep-In false x a ys m = m

  keep-here : (b : Bool) (x a : A) (ys : List A) → a ≡ x → b ≡ true → In a (keep b x ys)
  keep-here true x a ys e h = here e
  keep-here false x a ys e h = cc

  pub In-filter : (p : A → Bool) (xs : List A) {a : A} → In a xs → p a ≡ true → In a (filter p xs)
  unfolding filter
  In-filter p [] m h = elim m [ ]
  In-filter p (x ∷ xs) {a} (here e) h = keep-here (p x) x a (filter p xs) e (rw (← e) h)
  In-filter p (x ∷ xs) {a} (there m) h = keep-In (p x) x a (filter p xs) (In-filter p xs m h)

  pub In-append_left : (xs ys : List A) {a : A} → In a xs → In a (xs ++ ys)
  In-append_left [] ys m = elim m [ ]
  In-append_left (x ∷ xs) ys (here e) = here e
  In-append_left (x ∷ xs) ys (there m) = there (In-append_left xs ys m)

  pub In-append_right : (xs ys : List A) {a : A} → In a ys → In a (xs ++ ys)
  In-append_right [] ys m = m
  In-append_right (x ∷ xs) ys m = there (In-append_right xs ys m)

  pub All-of_In {κ} : (P : A → Type κ) (xs : List A) → ((x : A) → In x xs → P x) → All P xs
  All-of_In P [] h = tt
  All-of_In P (x ∷ xs) h = (h x (here refl), All-of_In P xs (λ y i. h y (there i)))

  pub In-of_All {κ} : (P : A → Type κ) (xs : List A) → All P xs → (x : A) → In x xs → P x
  In-of_All P [] h x i = elim i [ ]
  In-of_All P (y ∷ ys) h x (here e) = subst P (sym e) h.0
  In-of_All P (y ∷ ys) h x (there i) = In-of_All P ys h.1 x i

  pub any-In : (p : A → Bool) (xs : List A) → any p xs ≡ true → (x : A) × (In x xs × (p x ≡ true))
  unfolding any
  any-In p [] e = cc
  any-In p (x ∷ xs) e = elim (Bool-cases (p x)) [
    | inl t ↦ (x, (here refl, t))
    | inr f ↦ let (y, (m, t)) = any-In p xs (ground arith) in (y, (there m, t))
  ]

  pub In-any : (p : A → Bool) (xs : List A) (x : A) → In x xs → p x ≡ true → any p xs ≡ true
  unfolding any
  In-any p [] x m t = elim m [ ]
  In-any p (y ∷ ys) x (here e) t = rw (← e, t) refl
  In-any p (y ∷ ys) x (there m) t = let rest = In-any p ys x m t in ground arith
