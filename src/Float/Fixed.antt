-- ===== src/Float/Fixed.antt =====
-- Fixed-point numbers, which have the laws of floats.
use agentic_dev_ops.Prelude.{ℕ, ◌+◌, ◌-◌, ◌*◌, ◌/◌, ◌≡◌, refl, true, false, ltb, leb, arith}
use agentic_dev_ops.Float.{Float}

pub lt_asym : (a b : ℕ) → ltb a b ≡ true → ltb b a ≡ false
lt_asym a b h = ground arith

pub lt_le : (a b : ℕ) → ltb a b ≡ true → leb a b ≡ true
lt_le a b h = ground arith

pub le_trans : (a b c : ℕ) → leb a b ≡ true → leb b c ≡ true → leb a c ≡ true
le_trans a b c h k = ground arith

pub not_below_zero : (a : ℕ) → ltb a 0 ≡ false
not_below_zero a = ground arith

pub sub_le : (a b : ℕ) → ltb a (a - b) ≡ false
sub_le a b = ground arith

-- Numbers of at least 0 in units of one ten-thousandth; `sub` stops at 0.
abbrev pub fixed : Float
fixed = record {
  F = ℕ;
  lit = λ digits places. digits * 1000;
  add = λ a b. a + b;
  sub = λ a b. a - b;
  mul = λ a b. a * b / 10000;
  div = λ a b. a * 10000 / b;
  round = λ a n. a;
  lt = ltb;
  le = leb;
  lt_asym = lt_asym;
  lt_le = lt_le;
  le_trans = le_trans;
  lit_nonneg = λ digits places. not_below_zero (digits * 1000);
  add_nonneg = λ a b h k. not_below_zero (a + b);
  mul_nonneg = λ a b h k. not_below_zero (a * b / 10000);
  sub_le = λ a b h. sub_le a b;
  round_mono = λ a b n h. h;
  round_lit = λ digits n. refl;
}
