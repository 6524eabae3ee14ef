-- ===== src/Net/Tests.antt =====
-- The readers of ai-firewall/src/net.rs on concrete tables.
use ai_firewall.Prelude.{ℕ, ◌+◌, ◌*◌, ◌^◌, ◌≡◌, refl, some, none, subst, List, [], ◌∷◌}
use ai_firewall.Text.{codes}
use ai_firewall.Text.Words.{lines, split_whitespace}
use ai_firewall.Net.{
  parse_default_route, parse_hex, hex_digit, swap_bytes, DefaultRoute, candidates, parse_fields,
  min_by_metric, nameservers, nameservers_of, skip_first, own_v6_prefixes, sort, dedup, inet6,
}
use ai_firewall.Net.Route.{Answers, parse_default_route-Answers}

abbrev route_table : List ℕ
route_table =
    codes
      "Iface Destination\nwlp3s0\t00000000\t0100430A\t0003\t0\t0\t600\t00000000\t0\nenp2s0\t00000000\t0101A8C0\t0003\t0\t0\t100\t00000000\t0\t0\t0\nwlp3s0\t0000430A\t00000000\t0001\t0\t0\t600\t00C0FFFF\t0\t0\t0\n"

abbrev wireless : DefaultRoute
wireless = record { metric = 600; iface = codes "wlp3s0"; gateway = 0x0a430001 }

abbrev wired : DefaultRoute
wired = record { metric = 100; iface = codes "enp2s0"; gateway = 0xc0a80101 }

two_routes : candidates (skip_first (lines route_table)) ≡ some (wireless ∷ wired ∷ [])
unfolding candidates lines ai_firewall.Text.split parse_fields split_whitespace parse_hex hex_digit
    ai_firewall.Text.parse_uint ai_firewall.Text.digits_value swap_bytes
two_routes = refl

wired_first : parse_default_route route_table ≡ some (some (codes "enp2s0", 0xc0a80101))
unfolding parse_default_route candidates lines ai_firewall.Text.split parse_fields split_whitespace
    parse_hex hex_digit ai_firewall.Text.parse_uint ai_firewall.Text.digits_value min_by_metric
    swap_bytes
wired_first = refl

parse_default_route-Answers_example :
    Answers (skip_first (lines route_table)) (some (some (codes "enp2s0", 0xc0a80101)))
parse_default_route-Answers_example =
    subst (Answers (skip_first (lines route_table))) wired_first
      (parse_default_route-Answers route_table)

-- A line of seven fields is read past its end.
seven_fields : parse_default_route (codes "head\na 00000000 b c d e f\n") ≡ none
unfolding parse_default_route candidates lines ai_firewall.Text.split parse_fields split_whitespace
seven_fields = refl

resolvers :
    nameservers (some (codes "search lan\nnameserver 9.9.9.9\n") ∷ none ∷ []) ≡ 0x09090909 ∷ []
unfolding nameservers nameservers_of lines ai_firewall.Text.split
    ai_firewall.Text.Words.strip_prefix ai_firewall.Text.trim ai_firewall.Text.parse_ipv4
    ai_firewall.Text.parse_octet ai_firewall.Text.digits_value
resolvers = refl

sorted_once :
    own_v6_prefixes
      (inet6 [] (7 * 2 ^ 64) ∷ inet6 [] 1 ∷ inet6 [] (3 * 2 ^ 64) ∷ inet6 [] (7 * 2 ^ 64 + 5) ∷ [])
    ≡ 3 ∷ 7 ∷ []
unfolding own_v6_prefixes dedup sort ai_firewall.Addr.v6_prefix
sorted_once = refl
