-- ===== src/Base/Real.antt =====
-- What the sources use of C++ `double` and <cmath>. The arithmetic of IEEE 754 is not under the
-- repository: it is this parameter, and `lit m e` is the literal m * 10^-e.
use architect_simulator.Base.{ℕ, Bool, ◌*◌, ◌/◌, ◌^◌, ◌+◌, zero, suc, leb, true}
use architect_simulator.Base.Int.{ℤ, sub_ℕ, pos, pos_part, neg_part, ◌+ℤ◌, ◌-ℤ◌, ◌*ℤ◌, ltb_ℤ}

pub record Real : Type 1 where
  pub carrier : Type 0
  pub lit : ℕ → ℕ → carrier
  pub add : carrier → carrier → carrier
  pub sub : carrier → carrier → carrier
  pub mul : carrier → carrier → carrier
  pub div : carrier → carrier → carrier
  pub neg : carrier → carrier
  pub abs : carrier → carrier
  pub sqrt : carrier → carrier
  pub lt : carrier → carrier → Bool
  pub le : carrier → carrier → Bool
  pub is_finite : carrier → Bool

-- The largest r ≤ k with r * r ≤ n.
abbrev isqrt_below : ℕ → ℕ → ℕ
isqrt_below zero n = 0
isqrt_below (suc k) n = elim (leb (suc k * suc k) n) [ true ↦ suc k | _ ↦ isqrt_below k n ]

-- Integers stand for the numbers in tests: literals and quotients are cut off.
abbrev pub integers : Real
integers = record {
  carrier = ℤ;
  lit = λ m e. pos (m / 10 ^ e);
  add = ◌+ℤ◌;
  sub = ◌-ℤ◌;
  mul = ◌*ℤ◌;
  div = λ a b. pos (pos_part a / pos_part b);
  neg = λ a. sub_ℕ (neg_part a) (pos_part a);
  abs = λ a. pos (pos_part a + neg_part a);
  sqrt = λ a. pos (isqrt_below (pos_part a) (pos_part a));
  lt = ltb_ℤ;
  le = λ a b. leb (pos_part a + neg_part b) (pos_part b + neg_part a);
  is_finite = λ _. true;
}
