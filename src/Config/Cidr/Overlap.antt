-- ===== src/Config/Cidr/Overlap.antt =====
-- `overlaps` (ai-firewall/src/feeds.rs) against the addresses that two networks share, and what
-- `Cidr::parse` (ai-firewall/src/config.rs) returns.
use ai_firewall.Prelude.{
  ℕ, ◌-◌, ◌*◌, ◌/◌, ◌^◌, ◌≤◌, ◌<◌, ◌≡◌, sym, ap, ◌∙◌, ◌↔◌, inl, inr, true, ◌||◌, Option, none, some,
  arith, Bool-cases, Option-cases,
}
use ai_firewall.Prelude.Bits.{pow2_pos}
use native.Mathlib.Nat.{div-div-eq-div-mul, div-eq_of_eq-mul_left, div-mul-le_self}
use native.Mathlib.Decide.{dec_le}
use ai_firewall.Text.{Text, trim, split_once, parse_uint, parse_ipv4}
use ai_firewall.Text.Bounds.{parse_ipv4-lt}
use ai_firewall.Config.Cidr.{Cidr, u32_max, network, parse, with_bits, contains, overlaps}
use ai_firewall.Config.Cidr.Networks.{pow2_split, masked, contains-network}

-- A network as `parse` makes it.
abbrev pub IsNetwork : Cidr → Type 0
IsNetwork c = (addr : ℕ) × (bits : ℕ) × (addr < 2 ^ 32) × (bits < 33) × (c ≡ network addr bits)

-- Numbers that agree above bit k agree above every higher bit.
coarser : (k l x y : ℕ) → k ≤ l → x / 2 ^ k ≡ y / 2 ^ k → x / 2 ^ l ≡ y / 2 ^ l
coarser k l x y h e =
    let split : 2 ^ l ≡ 2 ^ k * 2 ^ (l - k) =
      ap (λ t. 2 ^ t) (omega arith) ∙ pow2_split k (l - k) in
    rw (
      split,
      ← div-div-eq-div-mul x (2 ^ k) (2 ^ (l - k)),
      ← div-div-eq-div-mul y (2 ^ k) (2 ^ (l - k)),
      e,
    )

net_top :
    (addr bits : ℕ)
    → bits < 33
    → addr < 2 ^ 32
    → (network addr bits).net / 2 ^ (32 - bits) ≡ addr / 2 ^ (32 - bits)
unfolding network
net_top addr bits h a = div-eq_of_eq-mul_left (pow2_pos (32 - bits)) (masked addr bits h a)

net-lt : (addr bits : ℕ) → bits < 33 → addr < 2 ^ 32 → (network addr bits).net < 2 ^ 32
unfolding network
net-lt addr bits h a = omega (arith, masked addr bits h a, div-mul-le_self addr (2 ^ (32 - bits)))

-- Two networks share an address.
abbrev pub Meet : Cidr → Cidr → Type 0
Meet a b = (ip : ℕ) × (ip < 2 ^ 32) × (contains a ip ≡ true) × (contains b ip ≡ true)

-- A network holds its own address.
contains_self :
    (addr bits : ℕ)
    → bits < 33
    → addr < 2 ^ 32
    → contains (network addr bits) (network addr bits).net ≡ true
contains_self addr bits h a =
    (contains-network addr bits (network addr bits).net h a (net-lt addr bits h a)).1
      (net_top addr bits h a)

-- The wider of two networks that share an address holds the address of the other.
contains_narrower :
    (a b k l ip : ℕ)
    → a < 2 ^ 32
    → b < 2 ^ 32
    → l < 33
    → k ≤ l
    → ip < 2 ^ 32
    → contains (network a k) ip ≡ true
    → contains (network b l) ip ≡ true
    → contains (network a k) (network b l).net ≡ true
contains_narrower a b k l ip ha hb hl kl hip ca cb =
    let in_a = (contains-network a k ip (omega arith) ha hip).0 ca in
    let in_b = (contains-network b l ip hl hb hip).0 cb in
    (contains-network a k (network b l).net (omega arith) ha (net-lt b l hl hb)).1 (
      coarser (32 - l) (32 - k) (network b l).net b (omega arith) (net_top b l hl hb)
      ∙ sym (coarser (32 - l) (32 - k) ip b (omega arith) in_b)
      ∙ in_a)

-- `overlaps` holds of two networks exactly when some address lies in both.
pub overlaps-Meet : (a b : Cidr) → IsNetwork a → IsNetwork b → (overlaps a b ≡ true) ↔ Meet a b
unfolding overlaps
overlaps-Meet a b (x, k, hx, hk, ea) (y, l, hy, hl, eb) = rw (ea, eb) (meet, over)
  where
    meet :
        (contains (network x k) (network y l).net || contains (network y l) (network x k).net)
          ≡ true
        → Meet (network x k) (network y l)
    meet h = elim (Bool-cases (contains (network x k) (network y l).net)) [
      | inl c ↦ ((network y l).net, net-lt y l hl hy, c, contains_self y l hl hy)
      | inr n ↦ ((network x k).net, net-lt x k hk hx, contains_self x k hk hx, ground arith)
    ]

    over :
        Meet (network x k) (network y l)
        → (contains (network x k) (network y l).net || contains (network y l) (network x k).net)
          ≡ true
    over (ip, hip, ca, cb) = elim (dec_le k l) [
      | yes le ↦ rw (contains_narrower x y k l ip hx hy hl le hip ca cb)
      | no gt ↦
          let c = contains_narrower y x l k ip hy hx hk (omega arith) hip cb ca in ground arith
    ]

of_bits : (addr : Text) (bits : Option ℕ) (c : Cidr) → with_bits addr bits ≡ some c → IsNetwork c
unfolding with_bits
of_bits addr none c h = cc
of_bits addr (some n) c h = elim (Option-cases (parse_ipv4 (trim addr))) [
  | inl bad ↦ absurd (ground arith)
  | inr (a, good) ↦ (a, n, parse_ipv4-lt (trim addr) a good, ground arith, ground arith)
]

-- What `Cidr::parse` returns is a network: its host bits are clear, and its mask is some number of
-- ones up to 32 above zeros.
pub parse-IsNetwork : (s : Text) (c : Cidr) → parse s ≡ some c → IsNetwork c
unfolding parse
parse-IsNetwork s c e = elim (Option-cases (split_once b'/' s)) [
  | inl whole ↦ of_bits s (some 32) c (rw (whole, parse) at e)
  | inr ((addr, bits), cut) ↦ of_bits addr (parse_uint u32_max bits) c (rw (cut, parse) at e)
]
