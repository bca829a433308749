-- ===== src/Common/Decimal.antt =====
-- What `show_u64` prints, `parse_uint` reads.
use Prim.Native.Char.{Char, code}
use Prim.Native.Nat.{ℕ, zero, suc, ◌+◌, ◌*◌, ◌/◌, ◌%◌, ◌^◌, ◌≤◌, ◌<◌}
use Prim.Native.String.{String, ◌++◌}
use native.Mathlib.Omega.{arith}
use mathlib.Core.Path.{◌≡◌, refl, ap, sym, subst, ◌∙◌}
use mathlib.Core.Logic.{inl, inr}
use mathlib.Core.Bool.{true, false}
use mathlib.Core.Option.{Option, none, some}
use text.Mathlib.TextLemmas.{nil-append, cons-append}
use coordin.Common.Bools.{leb, eqb, ltb, Bool-cases}
use coordin.Common.Text
use coordin.Common.Text.{decimal, show_u64}
use coordin.Common.Chars.{digit, shift, digits, number, parse_uint}

digits-append : (o : Option ℕ) (s t : String) → digits o (s ++ t) ≡ digits (digits o s) t
digits-append none s t = refl
digits-append (some n) String.[] t = rw (nil-append t)
digits-append (some n) (String.◌∷◌ c s) t =
    rw (cons-append c s t) (digits-append (shift n (digit (code c))) s t)

-- The text is one character, which stands for the digit.
abbrev IsDigit : ℕ → String → Type 0
IsDigit d s = (c : Char) × ((s ≡ String.◌∷◌ c "") × (digit (code c) ≡ some d))

digit-IsDigit : (d : ℕ) → d < 10 → IsDigit d (Text.digit d)
digit-IsDigit zero h = ("0", (refl, refl))
digit-IsDigit (suc zero) h = ("1", (refl, refl))
digit-IsDigit (suc (suc zero)) h = ("2", (refl, refl))
digit-IsDigit (suc (suc (suc zero))) h = ("3", (refl, refl))
digit-IsDigit (suc (suc (suc (suc zero)))) h = ("4", (refl, refl))
digit-IsDigit (suc (suc (suc (suc (suc zero))))) h = ("5", (refl, refl))
digit-IsDigit (suc (suc (suc (suc (suc (suc zero)))))) h = ("6", (refl, refl))
digit-IsDigit (suc (suc (suc (suc (suc (suc (suc zero))))))) h = ("7", (refl, refl))
digit-IsDigit (suc (suc (suc (suc (suc (suc (suc (suc zero)))))))) h = ("8", (refl, refl))
digit-IsDigit (suc (suc (suc (suc (suc (suc (suc (suc (suc zero))))))))) h = ("9", (refl, refl))
digit-IsDigit (suc (suc (suc (suc (suc (suc (suc (suc (suc (suc n)))))))))) h = absurd (omega arith)

-- The text begins with a digit.
abbrev Leads : String → Type 0
Leads s =
    (c : Char) × ((rest : String) × ((d : ℕ) × ((s ≡ String.◌∷◌ c rest)
          × (digit (code c) ≡ some d))))

shift_last : (n d : ℕ) (o : Option ℕ) → o ≡ some d → digits (shift n o) "" ≡ some (n * 10 + d)
shift_last n d none h = cc
shift_last n d (some k) h = ground arith

shift_zero : (d : ℕ) (o : Option ℕ) → o ≡ some d → o ≡ shift 0 o
shift_zero d none h = refl
shift_zero d (some k) h = ap some (omega arith)

digits_last :
    (n d : ℕ) (c : Char)
    → digit (code c) ≡ some d
    → digits (some n) (String.◌∷◌ c "") ≡ some (n * 10 + d)
digits_last n d c h = shift_last n d (digit (code c)) h

number-digits : (s : String) → Leads s → number s ≡ digits (some 0) s
number-digits s (c, (String.[], (d, (e, h)))) =
    rw e (h ∙ ap some (omega arith) ∙ sym (digits_last 0 d c h))
number-digits s (c, (String.◌∷◌ b rest, (d, (e, h)))) =
    let sign : eqb (code c) 43 ≡ false = ground arith in
    rw (e, sign) (ap (λ o. digits o (String.◌∷◌ b rest)) (shift_zero d (digit (code c)) h))

Leads-append : (s t : String) → Leads s → Leads (s ++ t)
Leads-append s t (c, (rest, (d, (e, h)))) =
    (c, (rest ++ t, (d, (rw (e, cons-append c rest t) refl, h))))

-- The numbers of so many digits.
abbrev bound : ℕ → ℕ
bound zero = 1
bound (suc fuel) = 10 * bound fuel

Reads : ℕ → String → Type 0
Reads n s = Leads s × (digits (some 0) s ≡ some n)

digit-Reads : (d : ℕ) → d < 10 → Reads d (Text.digit d)
unfolding Reads
digit-Reads d h =
    let (c, (e, p)) = digit-IsDigit d h in
    ((c, ("", (d, (e, p)))), rw e (digits_last 0 d c p ∙ ap some (omega arith)))

append-Reads : (n d : ℕ) (s : String) → d < 10 → Reads n s → Reads (n * 10 + d) (s ++ Text.digit d)
unfolding Reads
append-Reads n d s h (leads, r) =
    let (c, (e, p)) = digit-IsDigit d h in
    (Leads-append s _ leads, rw (digits-append, r, e) (digits_last n d c p))

decimal-Reads : (fuel n : ℕ) → n < bound (suc fuel) → Reads n (decimal (suc fuel) n)
unfolding decimal
decimal-Reads zero n h =
    let small : ltb n 10 ≡ true = ground arith in rw small (digit-Reads n (omega arith))
decimal-Reads (suc fuel) n h = elim (Bool-cases (ltb n 10)) [
  | inl small ↦ rw small (digit-Reads n (ground arith))
  | inr large ↦
      let sum : n / 10 * 10 + n % 10 ≡ n = omega arith in
      rw large (
        subst (λ k. Reads k (decimal (suc fuel) (n / 10) ++ Text.digit (n % 10))) sum
          (append-Reads (n / 10) (n % 10) _ (omega arith)
            (decimal-Reads fuel (n / 10) (omega arith))))
]

-- A number that a `u64` holds is read back from its text.
pub parse_uint-show_u64 : (max n : ℕ) → n ≤ max → n < 10 ^ 20 → parse_uint max (show_u64 n) ≡ some n
unfolding parse_uint show_u64 Reads
parse_uint-show_u64 max n h small =
    let r = decimal-Reads 19 n small in
    let fits : leb n max ≡ true = ground arith in rw (number-digits _ r.0, r.1, fits) refl
