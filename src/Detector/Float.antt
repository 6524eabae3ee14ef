-- ===== src/Detector/Float.antt =====
-- The f32 arithmetic of ai-firewall/src/detector.rs, as an interface. `Laws` states what IEEE 754
-- gives for numbers that are not NaN.
use ai_firewall.Prelude.{ℕ, ◌≤◌, ◌<◌, ◌≡◌, Bool, true}

pub record Float32 : Type 1 where
  pub F : Type 0
  -- `n as f32`
  pub of_nat : ℕ → F
  -- what `Iterator::sum` starts from
  pub sum_start : F
  pub add : F → F → F
  pub sub : F → F → F
  pub div : F → F → F
  -- `a < b`
  pub lt : F → F → Bool
  -- `a.total_cmp(b)` is `Greater`
  pub total_gt : F → F → Bool

-- IEEE 754 rounds monotonically; `Le` is `<=` on numbers that are not NaN.
pub record Laws (fl : Float32) : Type 1 where
  pub Le : fl.F → fl.F → Type 0
  pub le_refl : (a : fl.F) → Le a a
  pub of_nat_mono : (a b : ℕ) → a ≤ b → Le (fl.of_nat a) (fl.of_nat b)
  pub add_mono : (a b c d : fl.F) → Le a b → Le c d → Le (fl.add a c) (fl.add b d)
  pub sub_mono : (a b c : fl.F) → Le a b → Le (fl.sub a c) (fl.sub b c)
  pub div_mono :
      (a b : fl.F) (n : ℕ) → 0 < n → Le a b → Le (fl.div a (fl.of_nat n)) (fl.div b (fl.of_nat n))
  pub lt_of_le : (a b c : fl.F) → Le a b → fl.lt b c ≡ true → fl.lt a c ≡ true
