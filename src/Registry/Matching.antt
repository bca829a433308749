-- ===== src/Registry/Matching.antt =====
-- What it means to match a template (djinn/crates/coordin8-registry/src/matcher.rs).
use Prim.Native.String.{len, ◌++◌}
use text.Mathlib.Text.{starts_with as text_starts_with, find?}
use text.Mathlib.TextPositions.{slice-append_left, len-append}
use text.Mathlib.TextEquality.{starts_with_iff}
use text.Mathlib.TextBridge.{IsPrefix}
use text.Mathlib.TextLemmas.{append_assoc}
use coordin.Common.{
  ◌<◌, String, true, false, Option, none, some, [], ◌∷◌, ◌≡◌, refl, ◌↔◌, arith, ◌==◌, all, is_some,
  sym, ◌∙◌, ◌⊎◌, Bool-cases, Option-cases, inl, inr, eq_iff, eq_refl, ap,
}
use coordin.Common.Text.{strip_prefix, strip_prefix-append}
use coordin.Common.Dict
use coordin.Common.Dict.{Dict, IsDict, get-insert, In-get, get-In}
use coordin.Registry.Matcher.{
  MatchOp, eq, contains, starts_with, anything, op_matches, parse_value, parse_template,
  field_matches, matches,
}

-- The template value that denotes an operator.
abbrev pub print_op : MatchOp → String
print_op (eq v) = v
print_op (contains s) = "contains:" ++ s
print_op (starts_with p) = "starts_with:" ++ p
print_op anything = "*"

-- The value is plain: it reads as none of the other operators.
pub record IsPlain (v : String) : Type 0 where
  pub not_empty : (v == "") ≡ false
  pub not_star : (v == "*") ≡ false
  pub not_contains : text_starts_with v "contains:" ≡ false
  pub not_starts_with : text_starts_with v "starts_with:" ≡ false

abbrev pub IsPrintable : MatchOp → Type 0
IsPrintable (eq v) = IsPlain v
IsPrintable op = Unit

-- A text with a longer prefix than another text differs from it.
longer-ne : (p s t : String) → len t < len p → ((p ++ s) == t) ≡ false
longer-ne p s t h = elim (Bool-cases ((p ++ s) == t)) [
  | inl e ↦ absurd (omega (arith, ap len ((eq_iff (p ++ s) t).0 e), len-append p s))
  | inr e ↦ e
]

parse_value-contains : (s : String) → parse_value ("contains:" ++ s) ≡ contains s
unfolding parse_value
parse_value-contains s = rw (
  longer-ne "contains:" s "" (omega arith),
  longer-ne "contains:" s "*" (omega arith),
  strip_prefix-append "contains:" s,
)

strip_other : (p : String) → strip_prefix "contains:" ("starts_with:" ++ p) ≡ none
unfolding strip_prefix
strip_other p = rw (append_assoc "starts_wi" "th:" p, slice-append_left "starts_wi" ("th:" ++ p))

parse_value-starts_with : (p : String) → parse_value ("starts_with:" ++ p) ≡ starts_with p
unfolding parse_value
parse_value-starts_with p = rw (
  longer-ne "starts_with:" p "" (omega arith),
  longer-ne "starts_with:" p "*" (omega arith),
  strip_other p,
  strip_prefix-append "starts_with:" p,
)

-- Parsing the printed form of an operator gives the operator back: any text may follow `contains:`
-- and `starts_with:`, and the text of an equality has to be plain.
pub parse_value-print_op : (op : MatchOp) → IsPrintable op → parse_value (print_op op) ≡ op
unfolding parse_value
parse_value-print_op (eq v) h = unfold strip_prefix in ground arith
parse_value-print_op (contains s) h = parse_value-contains s
parse_value-print_op (starts_with p) h = parse_value-starts_with p
parse_value-print_op anything h = refl

get_here : (i w : String) (t : Dict String) → Dict.get i ((i, w) ∷ t) ≡ some w
unfolding Dict.get
get_here i w t = rw (eq_refl i)

get_there :
    (i k w v : String) (t : Dict String)
    → Dict.get i t ≡ none
    → Dict.get k t ≡ some v
    → Dict.get k ((i, w) ∷ t) ≡ some v
unfolding Dict.get
get_there i k w v t absent e = elim (Bool-cases (i == k)) [
  | inl same ↦
      let i_eq : i ≡ k = (eq_iff i k).0 same in
      ground (arith, ap (λ (x : String). Dict.get x t) i_eq)
  | inr other ↦ rw other e
]

field_mono :
    (op : MatchOp) (o p : Option String)
    → ((x : String) → o ≡ some x → p ≡ some x)
    → field_matches op o ≡ true
    → field_matches op p ≡ true
field_mono op (some x) p sub h = rw (sub x refl) h
field_mono anything none none sub h = refl
field_mono anything none (some y) sub h = unfold op_matches in refl
field_mono (eq v) none p sub h = cc
field_mono (contains v) none p sub h = cc
field_mono (starts_with v) none p sub h = cc

matches-each :
    (t attrs : Dict String) (k v : String)
    → matches (parse_template t) attrs ≡ true
    → Dict.get k t ≡ some v
    → field_matches (parse_value v) (Dict.get k attrs) ≡ true
unfolding matches all parse_template Dict.get
matches-each [] attrs k v h e = cc
matches-each ((i, w) ∷ t) attrs k v h e = elim (Bool-cases (i == k)) [
  | inl same ↦
      let i_eq : i ≡ k = (eq_iff i k).0 same in
      let w_eq : w ≡ v = ground arith in
      let first : field_matches (parse_value w) (Dict.get i attrs) ≡ true = ground arith in
      rw (← i_eq, ← w_eq) first
  | inr other ↦ matches-each t attrs k v (ground arith) (ground arith)
]

each-matches :
    (t attrs : Dict String)
    → IsDict t
    → ((k v : String)
        → Dict.get k t ≡ some v
        → field_matches (parse_value v) (Dict.get k attrs) ≡ true)
    → matches (parse_template t) attrs ≡ true
unfolding matches all parse_template
each-matches [] attrs d h = refl
each-matches ((i, w) ∷ t) attrs d h =
    let here = h i w (get_here i w t) in
    let rest = each-matches t attrs d.1 (λ k v e. h k v (get_there i k w v t d.0 e)) in
    rw (here, rest)

-- What a template's value asks of an attribute, which may be absent, as the text says it: nothing, a
-- part, a beginning, or the value itself.
pub data Meets (v : String) (o : Option String) : Type 0 where
  wildcard : (v ≡ "") ⊎ (v ≡ "*") → Meets v o
  has_part :
      (s x : String) → v ≡ "contains:" ++ s → o ≡ some x → is_some (find? x s) ≡ true → Meets v o
  begins : (p x : String) → v ≡ "starts_with:" ++ p → o ≡ some x → IsPrefix p x → Meets v o
  same : IsPlain v → o ≡ some v → Meets v o

strip_some : (p v rest : String) → strip_prefix p v ≡ some rest → v ≡ p ++ rest
unfolding strip_prefix
strip_some p v rest h = elim (Bool-cases (text_starts_with v p)) [
  | inr e ↦ let no : ◌≡◌ {A = Option String} none (some rest) = rw e at h in cc
  | inl e ↦
      let (r, joined) = (starts_with_iff v p).0 e in
      let got : some r ≡ some rest = sym (strip_prefix-append p r) ∙ rw (← joined) at h in
      let r_eq : r ≡ rest = cc in sym joined ∙ ap (λ x. p ++ x) r_eq
]

strip_none : (p v : String) → strip_prefix p v ≡ none → text_starts_with v p ≡ false
unfolding strip_prefix
strip_none p v h = elim (Bool-cases (text_starts_with v p)) [
  | inl e ↦ let no : ◌≡◌ {A = Option String} (some _) none = rw e at h in cc
  | inr e ↦ e
]

-- How a value is parsed.
parse_value-cases :
    (v : String)
    → (((v ≡ "") ⊎ (v ≡ "*")) × (parse_value v ≡ anything))
      ⊎ (((s : String) × ((v ≡ "contains:" ++ s) × (parse_value v ≡ contains s)))
          ⊎ (((p : String) × ((v ≡ "starts_with:" ++ p) × (parse_value v ≡ starts_with p)))
              ⊎ (IsPlain v × (parse_value v ≡ eq v))))
unfolding parse_value
parse_value-cases v = elim (Bool-cases (v == "")) [
  | inl e ↦ inl (inl ((eq_iff v "").0 e), rw e refl)
  | inr e ↦ elim (Bool-cases (v == "*")) [
    | inl f ↦ inl (inr ((eq_iff v "*").0 f), rw (e, f) refl)
    | inr f ↦ elim (Option-cases (strip_prefix "contains:" v)) [
      | inr (s, g) ↦ inr (inl (s, (strip_some "contains:" v s g, rw (e, f, g) refl)))
      | inl g ↦ elim (Option-cases (strip_prefix "starts_with:" v)) [
        | inr (p, k) ↦ inr (inr (inl (p, (strip_some "starts_with:" v p k, rw (e, f, g, k) refl))))
        | inl k ↦ inr (
            inr (
              inr (
                record {
                  not_empty = e;
                  not_star = f;
                  not_contains = strip_none "contains:" v g;
                  not_starts_with = strip_none "starts_with:" v k;
                },
                rw (e, f, g, k) refl,
              )))
      ]
    ]
  ]
]

field_matches-Meets :
    (v : String) (o : Option String) → field_matches (parse_value v) o ≡ true → Meets v o
unfolding op_matches
field_matches-Meets v o h = elim (parse_value-cases v) [
  | inl (e, parsed) ↦ wildcard e
  | inr (inl (s, (e, parsed))) ↦ elim (Option-cases o) [
    | inl n ↦ let no : false ≡ true = rw (parsed, n) at h in cc
    | inr (x, n) ↦ has_part s x e n (rw (parsed, n) at h)
  ]
  | inr (inr (inl (p, (e, parsed)))) ↦ elim (Option-cases o) [
    | inl n ↦ let no : false ≡ true = rw (parsed, n) at h in cc
    | inr (x, n) ↦ begins p x e n ((starts_with_iff x p).0 (rw (parsed, n) at h))
  ]
  | inr (inr (inr (plain, parsed))) ↦ elim (Option-cases o) [
    | inl n ↦ let no : false ≡ true = rw (parsed, n) at h in cc
    | inr (x, n) ↦
        let x_eq : x ≡ v = (eq_iff x v).0 (rw (parsed, n) at h) in
        same plain (n ∙ ap (λ (y : String). some y) x_eq)
  ]
]

anything_matches : (o : Option String) → field_matches anything o ≡ true
unfolding op_matches
anything_matches none = refl
anything_matches (some x) = refl

parse_value_empty : parse_value "" ≡ anything
unfolding parse_value
parse_value_empty = refl

parse_value_star : parse_value "*" ≡ anything
unfolding parse_value
parse_value_star = refl

Meets-field_matches :
    (v : String) (o : Option String) → Meets v o → field_matches (parse_value v) o ≡ true
unfolding op_matches
Meets-field_matches v o (wildcard (inl e)) = rw (e, parse_value_empty) (anything_matches o)
Meets-field_matches v o (wildcard (inr e)) = rw (e, parse_value_star) (anything_matches o)
Meets-field_matches v o (has_part s x e n h) = rw (e, n, parse_value-contains s) h
Meets-field_matches v o (begins p x e n h) =
    rw (e, n, parse_value-starts_with p) ((starts_with_iff x p).1 h)
Meets-field_matches v o (same plain n) = rw (n, parse_value-print_op (eq v) plain) (eq_refl v)

-- A template with distinct fields matches exactly when each of its values gets what it asks of the
-- attribute of its name: a value that is empty or `*` asks nothing, `contains:` asks for an attribute
-- in which the rest of the value is found, `starts_with:` for one that begins with the rest, and any
-- other value for one that equals it.
pub matches_iff :
    (t attrs : Dict String)
    → IsDict t
    → (matches (parse_template t) attrs ≡ true)
      ↔ ((k v : String) → Dict.get k t ≡ some v → Meets v (Dict.get k attrs))
matches_iff t attrs d = (
  λ h k v e. field_matches-Meets v (Dict.get k attrs) (matches-each t attrs k v h e),
  λ h. each-matches t attrs d (λ k v e. Meets-field_matches v (Dict.get k attrs) (h k v e)),
)

-- A template with distinct fields that matches some attributes matches all attributes that extend
-- them, where each attribute keeps its value.
matches_mono :
    (t attrs more : Dict String)
    → IsDict t
    → ((k x : String) → Dict.get k attrs ≡ some x → Dict.get k more ≡ some x)
    → matches (parse_template t) attrs ≡ true
    → matches (parse_template t) more ≡ true
matches_mono t attrs more d sub h = each-matches t more d λ k v e.
    field_mono (parse_value v) (Dict.get k attrs) (Dict.get k more) (sub k)
      (matches-each t attrs k v h e)
