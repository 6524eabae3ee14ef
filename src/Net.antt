-- ===== src/Net.antt =====
-- ai-firewall/src/net.rs: what the daemon reads of the host. The texts of the files and the list that
-- `getifaddrs` returns are arguments; the clocks, the call of nmcli and the directory of the
-- interfaces are not modelled. A machine is little-endian.
pub mod Route
pub mod Spared
pub mod Tests
use ai_firewall.Prelude.{
  ℕ, zero, suc, ◌+◌, ◌-◌, ◌*◌, ◌/◌, ◌%◌, ◌^◌, bit_and, Bool, true, false, not, ◌&&◌, ◌||◌, Option,
  none, some, List, [], ◌∷◌, ◌++◌, map, any, retain, length, ltb, leb, ◌==◌, if◌then◌else◌,
}
use ai_firewall.Prelude.Option
use ai_firewall.Text.{Text, codes, text_eq, trim, parse_uint, parse_ipv4, at_most, is_digit}
use ai_firewall.Text.Words.{lines, split_whitespace, strip_prefix, starts_with, to_lower}
use ai_firewall.Config.Cidr
use ai_firewall.Config.Cidr.{Cidr, u32_max, single}
use ai_firewall.Addr.{v6_prefix}

-- A digit of base 16.
unfoldable pub hex_digit : ℕ → Option ℕ
unfolding to_lower
hex_digit c =
    if is_digit c
    then some (c - b'0')
    else if leb b'a' (to_lower c) && leb (to_lower c) b'f'
    then some (to_lower c - b'a' + 10)
    else none

unfoldable pub hex_value : ℕ → Text → Option ℕ
hex_value acc [] = some acc
hex_value acc (c ∷ s) = elim (hex_digit c) [ none ↦ none | some d ↦ hex_value (acc * 16 + d) s ]

-- `u32::from_str_radix(s, 16)`.
unfoldable pub parse_hex : Text → Option ℕ
unfolding hex_value
parse_hex [] = none
parse_hex (c ∷ []) = at_most u32_max (hex_value 0 (c ∷ []))
parse_hex (c ∷ d ∷ s) =
    at_most u32_max (if c == b'+' then hex_value 0 (d ∷ s) else hex_value 0 (c ∷ d ∷ s))

-- `u32::from_be`.
unfoldable pub swap_bytes : ℕ → ℕ
swap_bytes n =
    n % 256 * 2 ^ 24 + n / 2 ^ 8 % 256 * 2 ^ 16 + n / 2 ^ 16 % 256 * 2 ^ 8 + n / 2 ^ 24 % 256

pub record DefaultRoute : Type 0 where
  pub metric : ℕ
  pub iface : Text
  pub gateway : ℕ

-- A line of the table: no default route, a default route, or a read past the last field, at which
-- the program panics.
pub data Line : Type 0 where
  skipped : Line
  found : DefaultRoute → Line
  out_of_bounds : Line

abbrev pub zeros : Text
zeros = codes "00000000"

with_metric : Text → ℕ → Option ℕ → Line
with_metric iface gw none = skipped
with_metric iface gw (some metric) =
    found (record { metric = metric; iface = iface; gateway = swap_bytes gw })

with_gateway : Text → Text → Option ℕ → Line
with_gateway iface metric none = skipped
with_gateway iface metric (some gw) = with_metric iface gw (parse_uint u32_max metric)

unfoldable pub parse_fields : List Text → Line
unfolding with_metric with_gateway
parse_fields (iface ∷ destination ∷ gw ∷ f3 ∷ f4 ∷ f5 ∷ metric ∷ []) =
    if text_eq destination zeros then out_of_bounds else skipped
parse_fields (iface ∷ destination ∷ gw ∷ f3 ∷ f4 ∷ f5 ∷ metric ∷ mask ∷ rest) =
    if text_eq destination zeros && text_eq mask zeros
    then with_gateway iface metric (parse_hex gw)
    else skipped
parse_fields _ = skipped

-- The default routes of the lines; `none` is the panic.
unfoldable pub candidates : List Text → Option (List DefaultRoute)
candidates [] = some []
candidates (l ∷ ls) = elim (parse_fields (split_whitespace l)) [
  | skipped ↦ candidates ls
  | found r ↦ Option.map (λ rs. r ∷ rs) (candidates ls)
  | out_of_bounds ↦ none
]

-- `min_by_key`, the first of the least.
unfoldable pub least : DefaultRoute → List DefaultRoute → DefaultRoute
least best [] = best
least best (r ∷ rs) = least (if ltb r.metric best.metric then r else best) rs

unfoldable pub min_by_metric : List DefaultRoute → Option DefaultRoute
unfolding least
min_by_metric [] = none
min_by_metric (r ∷ rs) = some (least r rs)

abbrev pub skip_first : List Text → List Text
skip_first [] = []
skip_first (l ∷ ls) = ls

-- The interface and the gateway; `none` is the panic.
unfoldable pub parse_default_route : Text → Option (Option (Text × ℕ))
parse_default_route text =
    Option.map (λ rs. Option.map (λ r. (r.iface, r.gateway)) (min_by_metric rs))
      (candidates (skip_first (lines text)))

unfoldable pub parse_ephemeral_low : Text → Option ℕ
parse_ephemeral_low text = elim (split_whitespace text) [
  | [] ↦ none
  | w ∷ ws ↦ parse_uint u32_max w
]

-- A file that cannot be read is `none`.
unfoldable pub ephemeral_low : Option Text → ℕ
unfolding parse_ephemeral_low
ephemeral_low none = 32768
ephemeral_low (some text) = elim (parse_ephemeral_low text) [ none ↦ 32768 | some n ↦ n ]

abbrev nameserver_of : Option Text → Option ℕ
nameserver_of none = none
nameserver_of (some rest) = parse_ipv4 (trim rest)

unfoldable pub nameservers_of : List Text → List ℕ
nameservers_of [] = []
nameservers_of (l ∷ ls) =
    let rest = nameservers_of ls in
    elim (nameserver_of (strip_prefix (codes "nameserver") (trim l))) [
      | none ↦ rest
      | some ip ↦ ip ∷ rest
    ]

-- The two files, `none` where one cannot be read.
unfoldable pub nameservers : List (Option Text) → List ℕ
nameservers [] = []
nameservers (none ∷ files) = nameservers files
nameservers (some text ∷ files) = nameservers_of (lines text) ++ nameservers files

-- An entry of `getifaddrs`; another family than the two carries no address here.
pub data IfAddr : Type 0 where
  inet : Text → ℕ → Option ℕ → IfAddr
  inet6 : Text → ℕ → IfAddr
  other : Text → IfAddr

pub record IfaceNet : Type 0 where
  pub iface : Text
  pub addr : ℕ
  pub net : Cidr

abbrev mask_or_all : Option ℕ → ℕ
mask_or_all none = u32_max
mask_or_all (some m) = m

unfoldable pub interface_networks : List IfAddr → List IfaceNet
interface_networks [] = []
interface_networks (inet iface addr mask ∷ rest) =
    record {
      iface = iface;
      addr = addr;
      net = record { net = bit_and addr (mask_or_all mask); mask = mask_or_all mask };
    }
    ∷ interface_networks rest
interface_networks (_ ∷ rest) = interface_networks rest

unfoldable pub own_addresses : List IfAddr → List ℕ
own_addresses entries = map (λ n. n.addr) (interface_networks entries)

abbrev pub bridge_prefixes : List Text
bridge_prefixes =
    codes "virbr"
    ∷ codes "docker"
    ∷ codes "br-"
    ∷ codes "podman"
    ∷ codes "lxdbr"
    ∷ codes "vmnet"
    ∷ codes "cni"
    ∷ []

unfoldable pub is_virt_bridge : Text → Bool
unfolding strip_prefix
is_virt_bridge iface = any (λ p. starts_with p iface) bridge_prefixes

-- `::1` is the loopback address.
v6_prefixes_of : List IfAddr → List ℕ
v6_prefixes_of [] = []
v6_prefixes_of (inet6 iface ip ∷ rest) =
    if ip == 1 then v6_prefixes_of rest else v6_prefix ip ∷ v6_prefixes_of rest
v6_prefixes_of (_ ∷ rest) = v6_prefixes_of rest

insert_sorted : ℕ → List ℕ → List ℕ
insert_sorted a [] = a ∷ []
insert_sorted a (x ∷ xs) = if leb a x then a ∷ x ∷ xs else x ∷ insert_sorted a xs

unfoldable pub sort : List ℕ → List ℕ
unfolding insert_sorted
sort [] = []
sort (x ∷ xs) = insert_sorted x (sort xs)

-- `dedup`, of neighbours, after an element `a`.
dedup_after : ℕ → List ℕ → List ℕ
dedup_after a [] = []
dedup_after a (x ∷ xs) = if x == a then dedup_after a xs else x ∷ dedup_after x xs

unfoldable pub dedup : List ℕ → List ℕ
unfolding dedup_after
dedup [] = []
dedup (x ∷ xs) = x ∷ dedup_after x xs

unfoldable pub own_v6_prefixes : List IfAddr → List ℕ
unfolding v6_prefixes_of
own_v6_prefixes entries = dedup (sort (v6_prefixes_of entries))

abbrev pub loopback : Cidr
loopback = record { net = 0x7f000000; mask = 0xff000000 }

abbrev gateway_of : Option (Text × ℕ) → List Cidr
gateway_of none = []
gateway_of (some (iface, gw)) = single gw ∷ []

unfoldable pub auto_protected : Option (Text × ℕ) → List ℕ → List IfAddr → List Cidr
auto_protected route servers entries =
    loopback ∷ single 0 ∷ gateway_of route
    ++ (map single servers
        ++ (map single (own_addresses entries)
            ++ map (λ n. n.net)
                (retain (λ n. is_virt_bridge n.iface) (interface_networks entries))))
