-- ===== src/Common/Chars.antt =====
-- Texts walked by their characters: what the code uses of Rust's `str`.
use Prim.Native.Char.{Char, code}
use Prim.Native.Nat.{ℕ, zero, suc, ◌+◌, ◌-◌, ◌*◌, ◌≤◌}
use Prim.Native.String.{String}
use native.Mathlib.Omega.{arith}
use mathlib.Core.Path.{◌≡◌, refl}
use mathlib.Core.Bool.{Bool, true, ◌&&◌, ◌||◌}
use mathlib.Core.List.{List, [], ◌∷◌}
use mathlib.Core.Option.{Option, none, some}
use text.Mathlib.Text.{◌==◌}
use coordin.Common.Bools.{leb, eqb, if◌then◌else◌}

abbrev pub cons_first : Char → Option (String × String) → Option (String × String)
cons_first c none = none
cons_first c (some (a, b)) = some (String.◌∷◌ c a, b)

-- `split_once`, at a character.
unfoldable pub split_once : ℕ → String → Option (String × String)
split_once sep String.[] = none
split_once sep (String.◌∷◌ c s) =
    let rest = split_once sep s in if eqb (code c) sep then some ("", s) else cons_first c rest

abbrev pub cons_head : Char → List String → List String
cons_head c [] = []
cons_head c (s ∷ rest) = String.◌∷◌ c s ∷ rest

-- `split`, at a character.
unfoldable pub split : ℕ → String → List String
split sep String.[] = "" ∷ []
split sep (String.◌∷◌ c s) =
    let rest = split sep s in if eqb (code c) sep then "" ∷ rest else cons_head c rest

-- `matches(…).count()`, of a character.
unfoldable pub count_char : ℕ → String → ℕ
count_char x String.[] = 0
count_char x (String.◌∷◌ c s) = if eqb (code c) x then suc (count_char x s) else count_char x s

-- `chars().all(…)`
unfoldable pub all_chars : (ℕ → Bool) → String → Bool
all_chars p String.[] = true
all_chars p (String.◌∷◌ c s) = p (code c) && all_chars p s

abbrev pub cons_before : Char → Option String → Option String
cons_before c none = none
cons_before c (some p) = some (String.◌∷◌ c p)

-- `strip_suffix`: what stands before the suffix.
unfoldable pub strip_suffix : String → String → Option String
strip_suffix t String.[] = if t == "" then some "" else none
strip_suffix t (String.◌∷◌ c s) =
    let rest = strip_suffix t s in if String.◌∷◌ c s == t then some "" else cons_before c rest

-- `char::is_whitespace`
unfoldable pub is_whitespace : ℕ → Bool
is_whitespace c =
    (leb 9 c && leb c 13)
    || (eqb c 32
        || (eqb c 133
            || (eqb c 160
                || (eqb c 5760
                    || ((leb 8192 c && leb c 8202)
                        || (eqb c 8232
                            || (eqb c 8233 || (eqb c 8239 || (eqb c 8287 || eqb c 12288)))))))))

unfoldable pub trim_start : String → String
trim_start String.[] = ""
trim_start (String.◌∷◌ c s) =
    let rest = trim_start s in if is_whitespace (code c) then rest else String.◌∷◌ c s

abbrev cons_unless_blank : Char → String → String
cons_unless_blank c String.[] = if is_whitespace (code c) then "" else String.◌∷◌ c ""
cons_unless_blank c (String.◌∷◌ d s) = String.◌∷◌ c (String.◌∷◌ d s)

unfoldable pub trim_end : String → String
trim_end String.[] = ""
trim_end (String.◌∷◌ c s) = cons_unless_blank c (trim_end s)

abbrev pub trim : String → String
trim s = trim_start (trim_end s)

abbrev pub digit : ℕ → Option ℕ
digit c = if leb 48 c && leb c 57 then some (c - 48) else none

abbrev pub shift : ℕ → Option ℕ → Option ℕ
shift n none = none
shift n (some d) = some (n * 10 + d)

abbrev pub digits : Option ℕ → String → Option ℕ
digits none s = none
digits (some n) String.[] = some n
digits (some n) (String.◌∷◌ c s) = digits (shift n (digit (code c))) s

abbrev pub within : ℕ → Option ℕ → Option ℕ
within max none = none
within max (some n) = if leb n max then some n else none

-- Digits, after at most one `+`.
abbrev pub number : String → Option ℕ
number String.[] = none
number (String.◌∷◌ c String.[]) = digit (code c)
number (String.◌∷◌ c (String.◌∷◌ d s)) =
    if eqb (code c) 43 then digits (digit (code d)) s else digits (digit (code c)) (String.◌∷◌ d s)

-- `parse` to an unsigned integer of which `max` is the greatest.
unfoldable pub parse_uint : ℕ → String → Option ℕ
parse_uint max s = within max (number s)

-- The text of the error where `parse` fails.
abbrev int_error_from : ℕ → ℕ → String → String
int_error_from max n String.[] = ""
int_error_from max n (String.◌∷◌ c s) = elim (digit (code c)) [
  | none ↦ "invalid digit found in string"
  | some d ↦
      if leb (n * 10 + d) max
      then int_error_from max (n * 10 + d) s
      else "number too large to fit in target type"
]

unfoldable pub parse_int_error : ℕ → String → String
parse_int_error max String.[] = "cannot parse integer from empty string"
parse_int_error max (String.◌∷◌ c String.[]) = int_error_from max 0 (String.◌∷◌ c String.[])
parse_int_error max (String.◌∷◌ c (String.◌∷◌ d s)) =
    int_error_from max 0 (if eqb (code c) 43 then String.◌∷◌ d s else String.◌∷◌ c (String.◌∷◌ d s))

nth_or : Char → ℕ → String → Char
nth_or c n String.[] = c
nth_or c zero (String.◌∷◌ d s) = d
nth_or c (suc n) (String.◌∷◌ d s) = nth_or c n s

lower : Char → Char
unfolding nth_or
lower c =
    if leb 65 (code c) && leb (code c) 90
    then nth_or c (code c - 65) "abcdefghijklmnopqrstuvwxyz"
    else c

unfoldable pub to_ascii_lowercase : String → String
unfolding lower
to_ascii_lowercase String.[] = ""
to_ascii_lowercase (String.◌∷◌ c s) = String.◌∷◌ (lower c) (to_ascii_lowercase s)

lowercase_run : to_ascii_lowercase "Space-9.Internal" ≡ "space-9.internal"
unfolding to_ascii_lowercase
lowercase_run = refl

within_bound : (max n : ℕ) (o : Option ℕ) → within max o ≡ some n → n ≤ max
within_bound max n none e = cc
within_bound max n (some m) e = ground arith

pub parse_uint_bound : (max n : ℕ) (s : String) → parse_uint max s ≡ some n → n ≤ max
unfolding parse_uint
parse_uint_bound max n s e = within_bound max n (number s) e
