-- ===== src/Config/Tests.antt =====
-- The theorems on the networks, ports and rates of ai-firewall/src/config.rs at concrete texts.
use ai_firewall.Prelude.{ℕ, ◌≡◌, ◌↔◌, refl, true, none, some, List, [], ◌∷◌, contains, arith}
use ai_firewall.Text.{
  codes, split, parse_octet, digits_value, parse_uint, parse_ipv4, trim, split_once,
}
use ai_firewall.Config.Cidr.{parse, network, mask_of, overlaps}
use ai_firewall.Config.Cidr.Overlap.{Meet, overlaps-Meet}
use ai_firewall.Config.Ports.{
  PortSpec, one, text, expand, collect, ports, dedup, sort, range_of, insert_sorted, Rule, rate,
}
use ai_firewall.Config.Ports.Expand.{Ascending, Covers, expand-Covers}
use ai_firewall.Config.Ports.Rates.{rate-written, rate_wraps, limit_text}

overlaps-Meet_example :
    (overlaps (network 0x0a000000 8) (network 0x0a010203 24) ≡ true)
    ↔ Meet (network 0x0a000000 8) (network 0x0a010203 24)
overlaps-Meet_example =
    overlaps-Meet (network 0x0a000000 8) (network 0x0a010203 24)
      (0x0a000000, 8, omega arith, omega arith, refl)
      (0x0a010203, 24, omega arith, omega arith, refl)

lan_text : parse (codes " 10.1.2.3/8") ≡ some (record { net = 0x0a000000; mask = 0xff000000 })
unfolding parse split_once trim parse_uint parse_ipv4 split parse_octet digits_value network mask_of
lan_text = refl

-- Two ports, one of them again in a range.
abbrev specs : List PortSpec
specs = text (codes "443 - 445") ∷ one 22 ∷ one 444 ∷ []

expanded : expand specs ≡ some (22 ∷ 443 ∷ 444 ∷ 445 ∷ [])
unfolding expand collect ports parse_uint trim split_once digits_value dedup sort range_of
    insert_sorted
expanded = refl

expand-Covers_example :
    Ascending (22 ∷ 443 ∷ 444 ∷ 445 ∷ [])
    × ((p : ℕ) → (contains p (22 ∷ 443 ∷ 444 ∷ 445 ∷ []) ≡ true) ↔ Covers p specs)
expand-Covers_example = expand-Covers specs (22 ∷ 443 ∷ 444 ∷ 445 ∷ []) expanded

abbrev limited : ℕ → ℕ → ℕ → Rule
limited n num unit = record {
  proto = codes "tcp";
  port = one 22;
  from = none;
  limit = some (limit_text n num unit);
}

rate-written_example : rate (limited 5 2 b'm') ≡ some (some (5, 120))
rate-written_example =
    rate-written (limited 5 2 b'm') 5 2 b'm' refl (omega arith) (omega arith) refl (omega arith)
      (omega arith)

rate_wraps_example : rate (limited 5 71_582_789 b'm') ≡ some (some (5, 44))
rate_wraps_example =
    rate_wraps (limited 5 71_582_789 b'm') 5 71_582_789 refl (omega arith) (omega arith)
      (omega arith) (omega arith) (omega arith) (omega arith)
