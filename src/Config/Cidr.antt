-- ===== src/Config/Cidr.antt =====
-- ai-firewall/src/config.rs, `Cidr`: an IPv4 network in host order; and `overlaps` of
-- ai-firewall/src/feeds.rs.
pub mod Networks
pub mod Overlap
use ai_firewall.Prelude.{
  ℕ, zero, suc, ◌+◌, ◌-◌, ◌*◌, ◌/◌, ◌%◌, ◌^◌, bit_and, Bool, true, false, ◌||◌, Option, none, some,
  ◌==◌, ltb, if◌then◌else◌,
}
use ai_firewall.Text.{Text, trim, split_once, parse_uint, parse_ipv4}

abbrev pub u16_max : ℕ
u16_max = 65535

abbrev pub u32_max : ℕ
u32_max = 4294967295

pub record Cidr : Type 0 where
  pub net : ℕ
  pub mask : ℕ

-- `u32::MAX << (32 - bits)`, and 0 for no bits.
unfoldable pub mask_of : ℕ → ℕ
mask_of bits = if bits == 0 then 0 else u32_max * 2 ^ (32 - bits) % 2 ^ 32

unfoldable pub network : ℕ → ℕ → Cidr
network addr bits = record { net = bit_and addr (mask_of bits); mask = mask_of bits }

with_bits : Text → Option ℕ → Option Cidr
with_bits addr none = none
with_bits addr (some bits) =
    if ltb 32 bits
    then none
    else elim (parse_ipv4 (trim addr)) [ none ↦ none | some a ↦ some (network a bits) ]

unfoldable pub parse : Text → Option Cidr
unfolding with_bits
parse s = elim (split_once b'/' s) [
  | none ↦ with_bits s (some 32)
  | some (addr, bits) ↦ with_bits addr (parse_uint u32_max bits)
]

unfoldable pub single : ℕ → Cidr
single ip = record { net = ip; mask = u32_max }

unfoldable pub contains : Cidr → ℕ → Bool
contains c ip = bit_and ip c.mask == c.net

-- `u32::leading_ones`, over the top `k` bits.
leading_ones_of : ℕ → ℕ → ℕ
leading_ones_of zero x = 0
leading_ones_of (suc k) x =
    let more = leading_ones_of k x in if x / 2 ^ k % 2 == 1 then suc more else 0

unfoldable pub leading_ones : ℕ → ℕ
unfolding leading_ones_of
leading_ones x = leading_ones_of 32 x

unfoldable pub overlaps : Cidr → Cidr → Bool
overlaps a b = contains a b.net || contains b a.net
