-- ===== src/Common/Int.antt =====
-- The integers of an `i64`.
use Prim.Native.Nat.{ℕ, suc, ◌+◌, ◌-◌, ◌^◌, ◌≤◌}
use Prim.Native.String.{String, ◌++◌}
use coordin.Common.Bools.{leb, ltb, if◌then◌else◌}
use coordin.Common.Text.{show_u64}

-- `negsuc n` is -(n + 1).
pub data ℤ : Type 0 where
  pos : ℕ → ℤ
  negsuc : ℕ → ℤ

abbrev pos_part : ℤ → ℕ
pos_part (pos n) = n
pos_part (negsuc n) = 0

abbrev neg_part : ℤ → ℕ
neg_part (pos n) = 0
neg_part (negsuc n) = suc n

abbrev sub_ℕ : ℕ → ℕ → ℤ
sub_ℕ a b = if leb b a then pos (a - b) else negsuc (b - a - 1)

infix 50 ◌≤ℤ◌
abbrev pub ◌≤ℤ◌ : ℤ → ℤ → Type 0
a ≤ℤ b = pos_part a + neg_part b ≤ pos_part b + neg_part a

abbrev clamp : ℤ → ℤ
clamp (pos n) = if ltb n (2 ^ 63) then pos n else pos (2 ^ 63 - 1)
clamp (negsuc n) = if ltb n (2 ^ 63) then negsuc n else negsuc (2 ^ 63 - 1)

-- `i64::saturating_add`
unfoldable pub saturating_add : ℤ → ℤ → ℤ
saturating_add a b = clamp (sub_ℕ (pos_part a + pos_part b) (neg_part a + neg_part b))

unfoldable pub show_i64 : ℤ → String
show_i64 (pos n) = show_u64 n
show_i64 (negsuc n) = "-" ++ show_u64 (suc n)
