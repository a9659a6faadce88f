-- ===== src/Base/Int.antt =====
-- Go's `int` and `int64`: signed integers, and the wrap-around of 64-bit arithmetic.
use proof_layer.Base.{
  ℕ, suc, ◌+◌, ◌-◌, ◌%◌, ◌≡◌, ◌↔◌, Bool, true, false, arith, leb, ltb, nat_eq, if◌then◌else◌, Eq,
}

-- `negsuc n` is -(n + 1).
pub data ℤ : Type 0 where
  pos : ℕ → ℤ
  negsuc : ℕ → ℤ

abbrev pub pos_part : ℤ → ℕ
pos_part (pos n) = n
pos_part (negsuc n) = 0

abbrev pub neg_part : ℤ → ℕ
neg_part (pos n) = 0
neg_part (negsuc n) = suc n

-- a - b, as an integer.
abbrev pub sub_ℕ : ℕ → ℕ → ℤ
sub_ℕ a b = if leb b a then pos (a - b) else negsuc (b - a - 1)

abbrev pub ltb_ℤ : ℤ → ℤ → Bool
ltb_ℤ a b = ltb (pos_part a + neg_part b) (pos_part b + neg_part a)

abbrev pub two_63 : ℕ
two_63 = 9223372036854775808

abbrev pub two_64 : ℕ
two_64 = 18446744073709551616

-- The `int64` that a 64-bit pattern stands for.
abbrev pub signed : ℕ → ℤ
signed n = if ltb n two_63 then pos n else negsuc (two_64 - n - 1)

-- The 64-bit pattern of an integer.
abbrev pub pattern_64 : ℤ → ℕ
pattern_64 a = (pos_part a % two_64 + two_64 - neg_part a % two_64) % two_64

abbrev pub wrap : ℤ → ℤ
wrap a = signed (pattern_64 a)

abbrev pub int_eq : ℤ → ℤ → Bool
int_eq (pos a) (pos b) = nat_eq a b
int_eq (negsuc a) (negsuc b) = nat_eq a b
int_eq _ _ = false

pub int_eq_iff : (a b : ℤ) → (int_eq a b ≡ true) ↔ (a ≡ b)
int_eq_iff (pos a) (pos b) = ground arith
int_eq_iff _ _ = ground arith

instance abbrev pub Int_eq : Eq ℤ
Int_eq = record { equal = int_eq; reflects = int_eq_iff }
