-- ===== src/Prelude/Bits.antt =====
-- Laws of the bitwise operations at variables, from the digit recursion that they stand for.
use Prim.Native.Nat.{
  ℕ, zero, suc, ◌+◌, ◌*◌, ◌-◌, ◌/◌, ◌%◌, ◌^◌, ◌≤◌, ◌<◌, min, max, bit_and, bit_or, digits,
  bit_and-bitwise, bit_or-bitwise,
}
use mathlib.Core.Path.{◌≡◌, refl, ap}
use mathlib.Core.Bool.{Bool, true, false, not, ◌&&◌}
use native.Mathlib.Nat.{pow-suc, pow-succ', div-div-eq-div-mul, div-add-mod}
use native.Mathlib.Omega.{arith}

-- Any two counts of digits that reach beyond the first operand give one result.
digits_enough :
    (z : ℕ → ℕ) (f : ℕ → ℕ → ℕ) (x y k l : ℕ) → x ≤ k → x ≤ l → digits z f k x y ≡ digits z f l x y
digits_enough z f zero y zero zero h j = refl
digits_enough z f zero y zero (suc l) h j = refl
digits_enough z f zero y (suc k) zero h j = refl
digits_enough z f zero y (suc k) (suc l) h j = refl
digits_enough z f (suc x) y zero l h j = absurd (omega (arith, h))
digits_enough z f (suc x) y (suc k) zero h j = absurd (omega (arith, j))
digits_enough z f (suc x) y (suc k) (suc l) h j =
    let less : suc x / 2 ≤ x = omega arith in
    omega (arith, digits_enough z f (suc x / 2) (y / 2) k l (omega arith) (omega arith))

zero-bit_and : (b : ℕ) → bit_and 0 b ≡ 0
zero-bit_and b = bit_and-bitwise 0 b

zero-bit_or : (b : ℕ) → bit_or 0 b ≡ b
zero-bit_or b = bit_or-bitwise 0 b

pub bit_and_step : (x y : ℕ) → bit_and x y ≡ bit_and (x / 2) (y / 2) * 2 + min (x % 2) (y % 2)
bit_and_step zero y = omega (arith, zero-bit_and (y / 2), zero-bit_and y)
bit_and_step (suc x) y =
    let half : ℕ = suc x / 2 in
    omega (
      arith,
      digits_enough (λ b. 0) min half (y / 2) x half (omega arith) (omega arith),
      bit_and-bitwise half (y / 2),
      bit_and-bitwise (suc x) y,
    )

pub bit_or_step : (x y : ℕ) → bit_or x y ≡ bit_or (x / 2) (y / 2) * 2 + max (x % 2) (y % 2)
bit_or_step zero y = omega (arith, zero-bit_or (y / 2), zero-bit_or y)
bit_or_step (suc x) y =
    let half : ℕ = suc x / 2 in
    omega (
      arith,
      digits_enough (λ b. b) max half (y / 2) x half (omega arith) (omega arith),
      bit_or-bitwise half (y / 2),
      bit_or-bitwise (suc x) y,
    )

bit_or-zero_below : (n a : ℕ) → a < n → bit_or a 0 ≡ a
bit_or-zero_below zero a h = elim h [ ]
bit_or-zero_below (suc n) zero h = refl
bit_or-zero_below (suc n) (suc a) h =
    omega (arith, bit_or_step (suc a) 0, bit_or-zero_below n (suc a / 2) (omega arith))

bit_or-zero : (a : ℕ) → bit_or a 0 ≡ a
bit_or-zero a = bit_or-zero_below (suc a) a (omega arith)

bit_and-zero_below : (n a : ℕ) → a < n → bit_and a 0 ≡ 0
bit_and-zero_below zero a h = elim h [ ]
bit_and-zero_below (suc n) zero h = refl
bit_and-zero_below (suc n) (suc a) h =
    omega (arith, bit_and_step (suc a) 0, bit_and-zero_below n (suc a / 2) (omega arith))

pub bit_and-zero : (a : ℕ) → bit_and a 0 ≡ 0
bit_and-zero a = bit_and-zero_below (suc a) a (omega arith)

pub pow2_pos : (n : ℕ) → 0 < 2 ^ n
pow2_pos zero = omega arith
pow2_pos (suc n) = omega (arith, pow-suc 2 n, pow2_pos n)

or_field_step :
    (p q r : ℕ) → bit_or (q * p) (r / 2) ≡ q * p + r / 2 → bit_or (q * (p * 2)) r ≡ q * (p * 2) + r
or_field_step p q r h = ground (arith, bit_or_step (q * (p * 2)) r)

-- `(q << k) | r` for a field `r` of k bits.
pub bit_or_fields : (k q r : ℕ) → r < 2 ^ k → bit_or (q * 2 ^ k) r ≡ q * 2 ^ k + r
bit_or_fields zero q r h = ground (arith, bit_or-zero q)
bit_or_fields (suc k) q r h =
    rw (pow-suc 2 k)
      (or_field_step (2 ^ k) q r (bit_or_fields k q (r / 2) (omega (arith, pow-suc 2 k))))

and_above_step :
    (p a m b : ℕ) → bit_and (a / 2) (m * p) ≡ b * p → bit_and a (m * (2 * p)) ≡ b * (2 * p)
and_above_step p a m b h = ground (arith, bit_and_step a (m * (2 * p)))

-- A mask whose low k bits are clear acts above them.
pub bit_and_above : (k a m : ℕ) → bit_and a (m * 2 ^ k) ≡ bit_and (a / 2 ^ k) m * 2 ^ k
bit_and_above zero a m = ground arith
bit_and_above (suc k) a m = rw (pow-succ' 2 k) (
    and_above_step (2 ^ k) a m (bit_and (a / (2 * 2 ^ k)) m)
      (rw (← div-div-eq-div-mul a 2 (2 ^ k)) (bit_and_above k (a / 2) m)))

ones_step :
    (p a b : ℕ) → 0 < p → bit_and (a / 2) (p - 1) ≡ b → bit_and a (2 * p - 1) ≡ b * 2 + a % 2
ones_step p a b h e = ground (arith, bit_and_step a (2 * p - 1))

pub mod_double : (p a : ℕ) → a % (2 * p) ≡ (a / 2) % p * 2 + a % 2
mod_double p a = omega (
  arith,
  div-add-mod a (2 * p),
  div-add-mod (a / 2) p,
  ap (λ (t : ℕ). p * t) (div-div-eq-div-mul a 2 p),
)

-- A mask of n ones keeps the low n bits.
pub bit_and_ones : (n a : ℕ) → bit_and a (2 ^ n - 1) ≡ a % 2 ^ n
bit_and_ones zero a = omega (arith, bit_and-zero a)
bit_and_ones (suc n) a =
    rw (pow-succ' 2 n, mod_double (2 ^ n) a)
      (ones_step (2 ^ n) a ((a / 2) % 2 ^ n) (pow2_pos n) (bit_and_ones n (a / 2)))

-- Whether a test holds of all numbers below a bound, by evaluation.
unfoldable pub all_below : ℕ → (ℕ → Bool) → Bool
all_below zero test = true
all_below (suc k) test = all_below k test && test k

pub all_below_sound :
    (k : ℕ) (test : ℕ → Bool) (i : ℕ) → i < k → all_below k test ≡ true → test i ≡ true
unfolding all_below
all_below_sound zero test i less all = absurd (omega (arith, less))
all_below_sound (suc k) test i less all = ground (all_below_sound k test i, arith)

-- Two tests agree.
abbrev pub iff_bool : Bool → Bool → Bool
iff_bool true b = b
iff_bool false b = not b

pub iff_bool_eq : (a b : Bool) → iff_bool a b ≡ true → a ≡ b
iff_bool_eq a b h = ground arith
