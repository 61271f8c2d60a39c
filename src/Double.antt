-- ===== src/Double.antt =====
-- The arithmetic of `double`, which the histograms use: a parameter of the models, since the proofs need
-- no law of it. `to_int` is the conversion to `int`, and `of_ℤ` the one from an integer.
use gamesdk.Prelude.{Bool, suc, ◌+◌, ◌*◌, ◌/◌, true, false, if◌then◌else◌}
use gamesdk.Prelude.Int.{ℤ, pos, negsuc, ltb_ℤ, pos_part, neg_part, sub_ℕ}

pub record Arith : Type 1 where
  pub Double : Type 0
  pub of_ℤ : ℤ → Double
  pub to_int : Double → ℤ
  pub add : Double → Double → Double
  pub sub : Double → Double → Double
  pub mul : Double → Double → Double
  pub div : Double → Double → Double
  pub sqrt : Double → Double
  pub lt : Double → Double → Bool
  pub eq : Double → Double → Bool
  pub tenth : Double

-- Whole numbers in place of doubles: an instance on which the models run.
abbrev int_div : ℤ → ℤ → ℤ
int_div (pos a) (pos b) = pos (a / b)
int_div (pos a) (negsuc b) = sub_ℕ 0 (a / suc b)
int_div (negsuc a) (pos b) = sub_ℕ 0 (suc a / b)
int_div (negsuc a) (negsuc b) = pos (suc a / suc b)

abbrev int_mul : ℤ → ℤ → ℤ
int_mul a b =
    sub_ℕ (pos_part a * pos_part b + neg_part a * neg_part b)
      (pos_part a * neg_part b + neg_part a * pos_part b)

abbrev pub whole : Arith
whole = record {
  Double = ℤ;
  of_ℤ = λ n. n;
  to_int = λ n. n;
  add = λ a b. sub_ℕ (pos_part a + pos_part b) (neg_part a + neg_part b);
  sub = λ a b. sub_ℕ (pos_part a + neg_part b) (neg_part a + pos_part b);
  mul = int_mul;
  div = int_div;
  sqrt = λ n. n;
  lt = ltb_ℤ;
  eq = λ a b. if ltb_ℤ a b then false else if ltb_ℤ b a then false else true;
  tenth = pos 1;
}
