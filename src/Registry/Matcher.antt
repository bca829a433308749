-- ===== src/Registry/Matcher.antt =====
-- Templates and how they match attributes (djinn/crates/coordin8-registry/src/matcher.rs).
use text.Mathlib.Text.{starts_with as text_starts_with, find?}
use coordin.Common.{
  String, Bool, true, false, Option, none, some, [], ◌∷◌, is_some, ◌==◌, ◌||◌, if◌then◌else◌, all,
}
use coordin.Common.Text.{strip_prefix}
use coordin.Common.Dict
use coordin.Common.Dict.{Dict}

pub data MatchOp : Type 0 where
  eq contains starts_with : String → MatchOp
  anything : MatchOp

-- `MatchOp::matches`
unfoldable pub op_matches : MatchOp → String → Bool
op_matches (eq expected) value = value == expected
op_matches (contains sub) value = is_some (find? value sub)
op_matches (starts_with prefix) value = text_starts_with value prefix
op_matches anything value = true

unfoldable pub parse_value : String → MatchOp
parse_value v = if v == "" || v == "*" then anything else elim (strip_prefix "contains:" v) [
  | some rest ↦ contains rest
  | none ↦ elim (strip_prefix "starts_with:" v) [ some rest ↦ starts_with rest | none ↦ eq v ]
]

unfoldable pub parse_template : Dict String → Dict MatchOp
parse_template [] = []
parse_template ((k, v) ∷ rest) = (k, parse_value v) ∷ parse_template rest

abbrev pub field_matches : MatchOp → Option String → Bool
field_matches op (some val) = op_matches op val
field_matches anything none = true
field_matches op none = false

-- `attrs` satisfies all fields of the template.
unfoldable pub matches : Dict MatchOp → Dict String → Bool
matches template attrs = all (λ f. field_matches f.1 (Dict.get f.0 attrs)) template
