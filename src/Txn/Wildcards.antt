-- ===== src/Txn/Wildcards.antt =====
-- What a wildcard of the allowlist matches (djinn/crates/coordin8-txn/src/allowlist.rs).
use Prim.Native.Nat.{suc}
use Prim.Native.Char.{Char}
use Prim.Native.String.append
use Prim.Native.String.len as len_laws
use Prim.Native.String.{len, count, ◌++◌}
use text.Mathlib.TextPositions.{len-append, len_utf8-pos}
use text.Mathlib.TextLemmas.{append_assoc, length-cons, length-append}
use coordin.Common.{
  ℕ, ◌+◌, ◌≤◌, String, Bool, true, false, Option, none, some, ◌≡◌, ◌≢◌, ◌↔◌, refl, sym, ◌∙◌, arith,
  ◌==◌, eq_iff, eq_refl, ltb, if◌then◌else◌, ◌&&◌, Bool-cases, Option-cases, inl, inr, ap,
}
use coordin.Common.Chars.{strip_suffix, cons_before}
use coordin.Txn.Allowlist.{suffix_matches}

cut_some :
    (b : Bool) (o : Option String) (c : Char) (s t p : String)
    → (String.◌∷◌ c s == t) ≡ b
    → ((q : String) → o ≡ some q → s ≡ q ++ t)
    → (if b then some "" else cons_before c o) ≡ some p
    → String.◌∷◌ c s ≡ p ++ t
cut_some true o c s t p x rest e =
    let p_eq : "" ≡ p = cc in rw (← p_eq) ((eq_iff (String.◌∷◌ c s) t).0 x ∙ sym (append.nil t))
cut_some false none c s t p x rest e = cc
cut_some false (some q) c s t p x rest e =
    let p_eq : String.◌∷◌ c q ≡ p = cc in
    rw (← p_eq) (ap (String.◌∷◌ c) (rest q refl) ∙ sym (append.cons c q t))

cut_nil :
    (b : Bool) (t p : String) → (t == "") ≡ b → (if b then some "" else none) ≡ some p → "" ≡ p ++ t
cut_nil true t p x e =
    let p_eq : "" ≡ p = cc in rw (← p_eq) (sym ((eq_iff t "").0 x) ∙ sym (append.nil t))
cut_nil false t p x e = cc

-- What is stripped stands before the suffix.
strip_suffix-some : (t h p : String) → strip_suffix t h ≡ some p → h ≡ p ++ t
unfolding strip_suffix
strip_suffix-some t String.[] p e = cut_nil (t == "") t p refl e
strip_suffix-some t (String.◌∷◌ c s) p e =
    cut_some (String.◌∷◌ c s == t) (strip_suffix t s) c s t p refl (strip_suffix-some t s) e

no_longer : (m n : ℕ) → suc (m + n) ≡ n → ⊥
no_longer m n e = omega arith

longer_other : (c : Char) (p t : String) → (String.◌∷◌ c (p ++ t) == t) ≡ false
longer_other c p t = elim (Bool-cases (String.◌∷◌ c (p ++ t) == t)) [
  | inl e ↦
      let same = (eq_iff (String.◌∷◌ c (p ++ t)) t).0 e in
      let counted : suc (count p + count t) ≡ count t =
        sym (length-cons c (p ++ t) ∙ ap suc (length-append p t)) ∙ ap count same in
      elim (no_longer (count p) (count t) counted) [ ]
  | inr e ↦ e
]

strip_suffix_self : (t : String) → strip_suffix t t ≡ some ""
unfolding strip_suffix
strip_suffix_self String.[] = refl
strip_suffix_self (String.◌∷◌ c s) = rw (eq_refl (String.◌∷◌ c s)) refl

strip_suffix-append : (t p : String) → strip_suffix t (p ++ t) ≡ some p
unfolding strip_suffix
strip_suffix-append t String.[] = rw (append.nil t) (strip_suffix_self t)
strip_suffix-append t (String.◌∷◌ c p) =
    rw (append.cons c p t) (rw (strip_suffix, longer_other c p t, strip_suffix-append t p) refl)

len_positive : (s : String) → s ≢ "" → 1 ≤ len s
len_positive String.[] n = elim (n refl) [ ]
len_positive (String.◌∷◌ c s) n = let (k, e) = len_utf8-pos c in omega (arith, len_laws.cons c s, e)

dotted_len : (p s : String) → len (p ++ ("." ++ s)) ≡ len p + (1 + len s)
dotted_len p s = omega (arith, len-append p ("." ++ s), len-append "." s)

dotless_short : (s h : String) → h ≡ "" ++ ("." ++ s) → ltb (len s + 1) (len h) ≡ false
dotless_short s h e = let l : len h ≡ 0 + (1 + len s) = ap len e ∙ dotted_len "" s in ground arith

dotted_long : (p s h : String) → p ≢ "" → h ≡ p ++ ("." ++ s) → ltb (len s + 1) (len h) ≡ true
dotted_long p s h n e =
    let l : len h ≡ len p + (1 + len s) = ap len e ∙ dotted_len p s in
    let k = len_positive p n in ground arith

and_left : (a b : Bool) → (a && b) ≡ true → a ≡ true
and_left true b e = refl
and_left false b e = e

contradicted : {a : Bool} → a ≡ true → a ≡ false → ⊥
contradicted t f = cc

-- A wildcard matches exactly the host names with something and a dot before its suffix.
pub suffix_matches_iff :
    (s h : String)
    → (suffix_matches s h ≡ true) ↔ ((p : String) × ((p ≢ "") × (h ≡ p ++ ("." ++ s))))
suffix_matches_iff s h = (
  λ e. elim (Option-cases (strip_suffix s h)) [
    | inl x ↦ ground arith
    | inr (q, x) ↦ elim (Option-cases (strip_suffix "." q)) [
      | inl y ↦ ground arith
      | inr (p, y) ↦
          let parts : h ≡ p ++ ("." ++ s) =
            strip_suffix-some s h q x
            ∙ ap (λ u. u ++ s) (strip_suffix-some "." q p y)
            ∙ append_assoc p "." s in
          (
            p,
            (
              λ nil.
                  elim (contradicted (and_left _ _ e) (dotless_short s h (rw (← nil) parts))) [ ],
              parts,
            ),
          )
    ]
  ],
  λ (p, (n, e)).
      let parts : h ≡ (p ++ ".") ++ s = e ∙ sym (append_assoc p "." s) in
      let long : ltb (len s + 1) (len h) ≡ true = dotted_long p s h n e in
      rw (long, parts, strip_suffix-append s (p ++ "."), strip_suffix-append "." p) refl,
)
