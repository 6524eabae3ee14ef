-- ===== src/Config/Cidr/Networks.antt =====
-- An IPv4 network as a range of addresses, against the masks of ai-firewall/src/config.rs.
use ai_firewall.Prelude.{
  ℕ, zero, suc, ◌+◌, ◌-◌, ◌*◌, ◌/◌, ◌^◌, ◌<◌, bit_and, ◌≡◌, refl, sym, ap, ◌∙◌, ◌↔◌, true, ◌==◌,
  ==_iff, arith,
}
use ai_firewall.Prelude.Bits.{all_below, all_below_sound, bit_and_above, bit_and_ones, pow2_pos}
use native.Mathlib.Nat.{pow-suc, mod-eq_of_lt, div-lt_iff_lt-mul}
use ai_firewall.Config.Cidr.{mask_of, network, contains, leading_ones}

pub pow2_split : (a b : ℕ) → 2 ^ (a + b) ≡ 2 ^ a * 2 ^ b
pow2_split zero b = let e : 0 + b ≡ b = omega arith in rw e (omega arith)
pow2_split (suc a) b =
    let e : suc a + b ≡ suc (a + b) = omega arith in
    rw (e, pow-suc 2 (a + b), pow-suc 2 a, pow2_split a b) (omega arith)

-- The masks that `parse` makes: `bits` ones above zeros.
mask_of_ones : (bits : ℕ) → bits < 33 → mask_of bits ≡ (2 ^ bits - 1) * 2 ^ (32 - bits)
unfolding mask_of all_below
mask_of_ones bits h =
    (==_iff (mask_of bits) ((2 ^ bits - 1) * 2 ^ (32 - bits))).0
      (all_below_sound 33 (λ n. mask_of n == (2 ^ n - 1) * 2 ^ (32 - n)) bits h refl)

pub leading_ones-mask_of : (bits : ℕ) → bits < 33 → leading_ones (mask_of bits) ≡ bits
unfolding mask_of leading_ones all_below
leading_ones-mask_of bits h =
    (==_iff (leading_ones (mask_of bits)) bits).0
      (all_below_sound 33 (λ n. leading_ones (mask_of n) == n) bits h refl)

pub top_bits : (addr bits : ℕ) → bits < 33 → addr < 2 ^ 32 → addr / 2 ^ (32 - bits) < 2 ^ bits
top_bits addr bits h a =
    (div-lt_iff_lt-mul (pow2_pos (32 - bits))).1
      (rw (← pow2_split bits (32 - bits)) (let e : bits + (32 - bits) ≡ 32 = omega arith in rw e a))

-- Masking an address clears its low bits.
pub masked :
    (addr bits : ℕ)
    → bits < 33
    → addr < 2 ^ 32
    → bit_and addr (mask_of bits) ≡ addr / 2 ^ (32 - bits) * 2 ^ (32 - bits)
masked addr bits h a =
    ap (bit_and addr) (mask_of_ones bits h)
    ∙ bit_and_above (32 - bits) addr (2 ^ bits - 1)
    ∙ ap (λ t. t * 2 ^ (32 - bits))
        (bit_and_ones bits (addr / 2 ^ (32 - bits)) ∙ mod-eq_of_lt (top_bits addr bits h a))

cancel : (p a b : ℕ) → 0 < p → a * p ≡ b * p → a ≡ b
cancel p a b h e = grind arith

-- `contains` on a network that `parse` makes: an address lies in it exactly when its first `bits`
-- bits are those of the network's address.
pub contains-network :
    (addr bits ip : ℕ)
    → bits < 33
    → addr < 2 ^ 32
    → ip < 2 ^ 32
    → (contains (network addr bits) ip ≡ true) ↔ (ip / 2 ^ (32 - bits) ≡ addr / 2 ^ (32 - bits))
unfolding contains network
contains-network addr bits ip h a i = (
  λ c.
      cancel (2 ^ (32 - bits)) (ip / 2 ^ (32 - bits)) (addr / 2 ^ (32 - bits))
        (pow2_pos (32 - bits)) (sym (masked ip bits h i) ∙ (==_iff _ _).0 c ∙ masked addr bits h a),
  λ e.
      (==_iff _ _).1
        (masked ip bits h i ∙ ap (λ t. t * 2 ^ (32 - bits)) e ∙ sym (masked addr bits h a)),
)
