-- ===== src/Common/Text.antt =====
-- Formatting of numbers into messages, and prefixes of texts.
use Prim.Native.Nat.{ℕ, zero, suc, ◌/◌, ◌%◌}
use Prim.Native.String.{String, ◌++◌, len, slice}
use text.Mathlib.Text.{starts_with}
use text.Mathlib.TextPositions.{starts_with-append, slice-append_right, len-append}
use mathlib.Core.Path.{◌≡◌, ap}
use mathlib.Core.Option.{Option, none, some}
use coordin.Common.Bools.{ltb, eqb, if◌then◌else◌}

abbrev pub digit : ℕ → String
digit d =
    if eqb d 0
    then "0"
    else if eqb d 1
    then "1"
    else if eqb d 2
    then "2"
    else if eqb d 3
    then "3"
    else if eqb d 4
    then "4"
    else if eqb d 5
    then "5"
    else if eqb d 6
    then "6"
    else if eqb d 7
    then "7"
    else if eqb d 8
    then "8"
    else "9"

unfoldable pub decimal : ℕ → ℕ → String
decimal zero n = ""
decimal (suc fuel) n =
    let rest = decimal fuel (n / 10) in if ltb n 10 then digit n else rest ++ digit (n % 10)

-- `{n}` in a format string; a `u64` has at most twenty digits.
unfoldable pub show_u64 : ℕ → String
unfolding decimal
show_u64 n = decimal 20 n

-- `str::strip_prefix`
unfoldable pub strip_prefix : String → String → Option String
strip_prefix prefix s = if starts_with s prefix then some (slice s (len prefix) (len s)) else none

pub strip_prefix-append : (p rest : String) → strip_prefix p (p ++ rest) ≡ some rest
unfolding strip_prefix
strip_prefix-append p rest =
    rw (starts_with-append p rest, len-append p rest) (ap some (slice-append_right p rest))
