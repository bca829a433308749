-- ===== src/Dynamo/Paging.antt =====
-- The loop that every store of djinn/providers/dynamo/src runs over the pages of a scan or a query,
-- until an answer has no `last_evaluated_key`, and that it ends with every item.
use coordin.Common.{
  ℕ, zero, suc, ◌<◌, Option, none, some, List, [], ◌∷◌, ◌++◌, Result, ok, err, and_then, lift, pure,
  ◌>>=◌, ◌≡◌, refl, arith, Result-cases, inl, inr, Option-cases,
}
use coordin.Error.{Error, Method}
use coordin.Dynamo.{Item, Page}

-- `unwrap_or_default`
abbrev pub or_empty {ℓ} : {A : Type ℓ} → Option (List A) → List A
or_empty none = []
or_empty (some xs) = xs

abbrev pub first : List Item → Option Item
first [] = none
first (item ∷ items) = some item

-- `for item in items`, with the body's `?`.
unfoldable pub push_all :
    {A : Type 0}
    → (Item → List A → Result Error (List A))
    → List Item
    → List A
    → Result Error (List A)
push_all push [] out = ok out
push_all push (item ∷ items) out = and_then (push item out) (push_all push items)

-- After a page: the end, or another round.
abbrev pub onward :
    {W A : Type 0}
    → (Option Item → List A → Method W (Option (List A)))
    → Option Item
    → List A
    → Method W (Option (List A))
onward round none out = pure (some out)
onward round (some key) out = round (some key) out

module _ {W A : Type 0} (fetch : Option Item → Method W Page)
    (push : Item → List A → Result Error (List A)) where
  -- At most so many rounds; `none` means that they did not suffice.
  unfoldable pub pages : ℕ → Option Item → List A → Method W (Option (List A))
  pages zero last_key out = pure none
  pages (suc fuel) last_key out = do
    page ← fetch last_key
    out ← lift (push_all push (or_empty page.items) out)
    onward (pages fuel) page.last_evaluated_key out

-- What is documented of a scan or a query of a table that nothing else changes: it meets the items in
-- a fixed order, each page has those from its start key on, and names where the next one starts, which
-- is further on.
pub record Pages {W : Type 0} (fetch : Option Item → Method W Page) (w : W) : Type 0 where
  pub page : Option Item → Page
  pub rest : Option Item → List Item
  pub left : Option Item → ℕ
  pub answers : (key : Option Item) → fetch key w ≡ (ok (page key), w)
  pub last :
      (key : Option Item)
      → (page key).last_evaluated_key ≡ none
      → rest key ≡ or_empty (page key).items
  pub next :
      (key : Option Item) (from : Item)
      → (page key).last_evaluated_key ≡ some from
      → rest key ≡ or_empty (page key).items ++ rest (some from)
  pub falls :
      (key : Option Item) (from : Item)
      → (page key).last_evaluated_key ≡ some from
      → left (some from) < left key

abbrev pub found : {A : Type 0} → Result Error (List A) → Result Error (Option (List A))
found (ok out) = ok (some out)
found (err e) = err e

push_all-append :
    {A : Type 0} (push : Item → List A → Result Error (List A)) (xs ys : List Item) (out : List A)
    → push_all push (xs ++ ys) out ≡ and_then (push_all push xs out) (push_all push ys)
unfolding push_all
push_all-append push [] ys out = refl
push_all-append push (x ∷ xs) ys out = elim (Result-cases (push x out)) [
  | inl (a, e) ↦ rw e (push_all-append push xs ys a)
  | inr (x, e) ↦ rw e refl
]

module _ {W A : Type 0} (fetch : Option Item → Method W Page)
    (push : Item → List A → Result Error (List A)) where
  -- With more rounds than the pages can take, the loop ends, and it has put every item through its
  -- body in the order of the pages, up to an error of the body.
  pub pages_all :
      (fuel : ℕ) (key : Option Item) (out : List A) (w : W) (p : Pages fetch w)
      → p.left key < fuel
      → pages fetch push fuel key out w ≡ (found (push_all push (p.rest key) out), w)
  unfolding pages
  pages_all zero key out w p h = elim h [ ]
  pages_all (suc fuel) key out w p h = elim (Option-cases (p.page key).last_evaluated_key) [
    | inl done ↦
        rw (p.answers key, p.last key done)
          (elim (Result-cases (push_all push (or_empty (p.page key).items) out)) [
            | inl (a, e) ↦ rw (e, done) refl
            | inr (x, e) ↦ rw e refl
          ])
    | inr (from, more) ↦
        rw (p.answers key, p.next key from more, push_all-append)
          (elim (Result-cases (push_all push (or_empty (p.page key).items) out)) [
            | inl (a, e) ↦
                rw (e, more)
                  (pages_all fuel (some from) a w p (let f = p.falls key from more in omega arith))
            | inr (x, e) ↦ rw e refl
          ])
  ]
