-- ===== src/Daemon/Rules.antt =====
-- ai-firewall/src/daemon.rs: `compile`, `sync_ports` and `sync_trie`, from a policy of the
-- configuration to the kernel's port tables. A set is a list that is read through membership; a
-- write to an array of 65536 entries at a u16 succeeds.
pub mod Sync
pub mod Opened
pub mod Validated
use ai_firewall.Prelude.{
  ℕ, zero, suc, ◌+◌, ◌*◌, ◌/◌, ◌^◌, bit_and, Bool, true, false, not, ◌&&◌, Option, none, some, List,
  [], ◌∷◌, ◌++◌, KernelMap, update, nat_eq, get, insert, retain, contains, any, ltb, ◌==◌,
  if◌then◌else◌,
}
use ai_firewall.Text.{Text, codes, text_eq}
use ai_firewall.Wire.{rate_pack}
use ai_firewall.Kernel.Interface.{Bpf}
use ai_firewall.Kernel.Policy.{be16, be32}
use ai_firewall.Config.Cidr.{Cidr, leading_ones}
use ai_firewall.Config.Cidr
use ai_firewall.Config.Settings.{Policy}
use ai_firewall.Config.Ports.{Rule, ports, range_of, expand, rate}

pub record Compiled : Type 0 where
  pub tcp : List ℕ
  pub udp : List ℕ
  pub from_tcp : List (ℕ × List ℕ)
  pub from_udp : List (ℕ × List ℕ)
  pub rates : List (ℕ × ℕ)

abbrev pub dhcp_client_ports : List ℕ
dhcp_client_ports = 68 ∷ 546 ∷ []

-- The prefix length and the bytes of a rule's network behind its port.
unfoldable pub rule_key : ℕ → Cidr → ℕ × List ℕ
rule_key port net = (16 + leading_ones net.mask, be16 port (be32 net.net []))

-- A limit on a port that may have one: the lower rate wins.
unfoldable pub lower_rate : ℕ → ℕ × ℕ → Option ℕ → ℕ
lower_rate port (max, window) none = rate_pack max window
lower_rate port (max, window) (some r) =
    if ltb (max * bit_and r 0xffff) (r / 2 ^ 16 * window) then rate_pack max window else r

add_rate : ℕ → Option (ℕ × ℕ) → Compiled → Compiled
unfolding lower_rate
add_rate port none c = c
add_rate port (some limit) c = record c {
  rates = insert port (lower_rate port limit (get port c.rates)) c.rates;
}

-- The port opened to everyone, or to a network.
open_port : Bool → Option Cidr → ℕ → Compiled → Compiled
open_port true none port c = record c { tcp = port ∷ c.tcp }
open_port false none port c = record c { udp = port ∷ c.udp }
open_port true (some net) port c = record c { from_tcp = rule_key port net ∷ c.from_tcp }
open_port false (some net) port c = record c { from_udp = rule_key port net ∷ c.from_udp }

add_ports : Bool → Option Cidr → Option (ℕ × ℕ) → List ℕ → Compiled → Compiled
unfolding add_rate open_port
add_ports tcp_rule from limit [] c = c
add_ports tcp_rule from limit (port ∷ ps) c =
    add_ports tcp_rule from limit ps (add_rate port limit (open_port tcp_rule from port c))

-- `from.map(Cidr::parse).transpose()?`
unfoldable pub parse_from : Option Text → Option (Option Cidr)
parse_from none = some none
parse_from (some t) = elim (Cidr.parse t) [ none ↦ none | some c ↦ some (some c) ]

add_parsed :
    Bool
    → Option (Option Cidr)
    → Option (Option (ℕ × ℕ))
    → Option (ℕ × ℕ)
    → Compiled
    → Option Compiled
unfolding add_ports
add_parsed tcp_rule (some from) (some limit) (some r) c =
    some (add_ports tcp_rule from limit (range_of r) c)
add_parsed tcp_rule _ _ _ c = none

unfoldable pub add_rule : Rule → Compiled → Option Compiled
unfolding add_parsed
add_rule r c =
    add_parsed (text_eq r.proto (codes "tcp")) (parse_from r.from) (rate r) (ports r.port) c

add_rules : List Rule → Compiled → Option Compiled
add_rules [] c = some c
add_rules (r ∷ rs) c = elim (add_rule r c) [ none ↦ none | some c' ↦ add_rules rs c' ]

compile_lists : Option (List ℕ) → Option (List ℕ) → List Rule → Option Compiled
unfolding add_rules
compile_lists (some tcp) (some udp) rules =
    add_rules rules (record {
      tcp = tcp;
      udp = udp ++ dhcp_client_ports;
      from_tcp = [];
      from_udp = [];
      rates = [];
    })
compile_lists _ _ rules = none

unfoldable pub compile : Policy → Option Compiled
unfolding compile_lists
compile p = compile_lists (expand p.allow_tcp) (expand p.allow_udp) p.rules

unfoldable pub difference : List ℕ → List ℕ → List ℕ
difference xs ys = retain (λ x. not (contains x ys)) xs

-- `map.set(port, v)` for each port.
unfoldable pub set_all : ℕ → List ℕ → KernelMap ℕ ℕ → KernelMap ℕ ℕ
set_all v [] m = m
set_all v (p ∷ ps) m = set_all v ps (update m p v)

-- The table and the set of what was last written to it.
unfoldable pub sync_ports : KernelMap ℕ ℕ → List ℕ → List ℕ → KernelMap ℕ ℕ × List ℕ
sync_ports m open_ports wanted =
    (set_all 1 (difference wanted open_ports) (set_all 0 (difference open_ports wanted) m), wanted)

abbrev key_eq : ℕ × List ℕ → ℕ × List ℕ → Bool
key_eq a b = a.0 == b.0 && text_eq a.1 b.1

unfoldable pub difference_keys : List (ℕ × List ℕ) → List (ℕ × List ℕ) → List (ℕ × List ℕ)
difference_keys xs ys = retain (λ x. not (any (key_eq x) ys)) xs

module _ (b : Bpf) where
  open b use {Trie}

  remove_all : List (ℕ × List ℕ) → Trie → Trie
  remove_all [] t = t
  remove_all ((len, bytes) ∷ ks) t = remove_all ks (b.trie_remove t len bytes)

  -- Stops at the first insertion that fails, and says whether there was none.
  insert_all : List (ℕ × List ℕ) → Trie → Trie × Bool
  insert_all [] t = (t, true)
  insert_all ((len, bytes) ∷ ks) t = elim (b.trie_insert t len bytes 1) [
    | none ↦ (t, false)
    | some t' ↦ insert_all ks t'
  ]

  -- The trie, the set of what was last written to it, and whether all went well.
  unfoldable pub sync_trie :
      Trie → List (ℕ × List ℕ) → List (ℕ × List ℕ) → Trie × List (ℕ × List ℕ) × Bool
  unfolding remove_all insert_all
  sync_trie t have wanted =
      let (t', ok) =
        insert_all (difference_keys wanted have) (remove_all (difference_keys have wanted) t) in
      (t', (if ok then wanted else have), ok)
