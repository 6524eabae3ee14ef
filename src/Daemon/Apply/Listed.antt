-- ===== src/Daemon/Apply/Listed.antt =====
-- The addresses that the blocked networks list.
use ai_firewall.Prelude.{
  ℕ, zero, suc, ◌+◌, ◌-◌, ◌*◌, ◌/◌, ◌^◌, ◌≤◌, ◌<◌, ◌≡◌, refl, ◌∙◌, sym, ap, ◌↔◌, Bool, true, ◌&&◌,
  ◌||◌, List, [], ◌∷◌, ◌++◌, any, ltb, leb, ◌==◌, ==_iff, arith,
}
use native.Mathlib.Nat.{le-div_iff_mul-le, div-lt_iff_lt-mul}
use ai_firewall.Prelude.Bits.{pow2_pos, all_below, all_below_sound}
use ai_firewall.Addr.{Src, v4}
use ai_firewall.Config.Cidr
use ai_firewall.Config.Cidr.{Cidr, network, mask_of, u32_max}
use ai_firewall.Config.Cidr.Networks.{contains-network, masked, top_bits, pow2_split}
use ai_firewall.Config.Cidr.Overlap.{IsNetwork}
use ai_firewall.Detector.Bounds.{All}
use ai_firewall.Daemon.Apply.{addresses_from, addresses, listed, member}

member-addresses_from :
    (n start ip : ℕ)
    → start + n ≤ 2 ^ 32
    → member (v4 ip) (addresses_from n start) ≡ (leb start ip && ltb ip (start + n))
unfolding addresses_from
member-addresses_from zero start ip h = ground arith
member-addresses_from (suc n) start ip h = ground (arith, member-addresses_from n (start + 1) ip)

between : (d q : ℕ) → q ≤ d → d < q + 1 → d ≡ q
between d q h k = omega arith

-- The network's addresses lie from `q * p` up to `q * p + p`.
in_block : (p q ip : ℕ) → 0 < p → ((leb (q * p) ip && ltb ip (q * p + p)) ≡ true) ↔ (ip / p ≡ q)
in_block p q ip h =
    let low = le-div_iff_mul-le {x = q} {y = ip} h in
    let high = div-lt_iff_lt-mul {x = ip} {y = q + 1} h in
    let next : (q + 1) * p ≡ q * p + p = grind arith in
    (
      λ e.
          let a : q ≤ ip / p = low.1 (ground arith) in
          let c : ip / p < q + 1 = high.1 (rw next (ground arith)) in between (ip / p) q a c,
      λ e.
          let a : q * p ≤ ip = low.0 (rw e (omega arith)) in
          let c : ip < (q + 1) * p = high.0 (rw e (omega arith)) in ground arith,
    )

size : (bits : ℕ) → bits < 33 → u32_max - mask_of bits + 1 ≡ 2 ^ (32 - bits)
unfolding mask_of all_below
size bits h =
    (==_iff (u32_max - mask_of bits + 1) (2 ^ (32 - bits))).0
      (all_below_sound 33 (λ n. (u32_max - mask_of n + 1) == 2 ^ (32 - n)) bits h refl)

block_fits : (q n p top : ℕ) → q < n → n * p ≡ top → q * p + p ≤ top
block_fits q n p top h e = grind arith

fits :
    (addr bits : ℕ)
    → bits < 33
    → addr < 2 ^ 32
    → addr / 2 ^ (32 - bits) * 2 ^ (32 - bits) + 2 ^ (32 - bits) ≤ 2 ^ 32
fits addr bits h a =
    let p = 2 ^ (32 - bits) in
    let whole : 2 ^ bits * p ≡ 2 ^ 32 =
      let e : bits + (32 - bits) ≡ 32 = omega arith in
      sym (pow2_split bits (32 - bits)) ∙ ap (λ n. 2 ^ n) e in
    block_fits (addr / p) (2 ^ bits) p (2 ^ 32) (top_bits addr bits h a) whole

network-members :
    (addr bits ip : ℕ)
    → bits < 33
    → addr < 2 ^ 32
    → member (v4 ip) (addresses (network addr bits)) ≡ (
        leb (addr / 2 ^ (32 - bits) * 2 ^ (32 - bits)) ip
        && ltb ip (addr / 2 ^ (32 - bits) * 2 ^ (32 - bits) + 2 ^ (32 - bits)))
unfolding addresses network
network-members addr bits ip h a =
    rw (size bits h, masked addr bits h a)
      (member-addresses_from (2 ^ (32 - bits)) (addr / 2 ^ (32 - bits) * 2 ^ (32 - bits)) ip
        (fits addr bits h a))

both : {A B C : Type 0} → A ↔ B → C ↔ B → A ↔ C
both f g = (λ x. g.1 (f.0 x), λ x. f.1 (g.0 x))

-- A network lists exactly its addresses.
member-addresses :
    (c : Cidr) (ip : ℕ)
    → IsNetwork c
    → ip < 2 ^ 32
    → (member (v4 ip) (addresses c) ≡ true) ↔ (Cidr.contains c ip ≡ true)
member-addresses c ip (addr, bits, a, h, e) i =
    let p = 2 ^ (32 - bits) in
    rw (e, network-members addr bits ip h a)
      (both (in_block p (addr / p) ip (pow2_pos (32 - bits))) (contains-network addr bits ip h a i))

pub member-append :
    (ip : Src) (xs ys : List Src) → member ip (xs ++ ys) ≡ (member ip xs || member ip ys)
member-append ip [] ys = refl
member-append ip (x ∷ xs) ys = ground (arith, member-append ip xs ys)

-- The sources that networks list are the addresses that one of them contains.
pub member-listed :
    (cs : List Cidr) (ip : ℕ)
    → All IsNetwork cs
    → ip < 2 ^ 32
    → member (v4 ip) (listed cs) ≡ any (λ c. Cidr.contains c ip) cs
unfolding listed
member-listed [] ip n h = refl
member-listed (c ∷ cs) ip n h =
    let here =
      same_truth (member (v4 ip) (addresses c)) (Cidr.contains c ip)
        (member-addresses c ip n.0 h) in
    ground (arith, member-append (v4 ip) (addresses c) (listed cs), member-listed cs ip n.1 h)
  where
    same_truth : (x y : Bool) → (x ≡ true) ↔ (y ≡ true) → x ≡ y
    same_truth x y e = ground arith
