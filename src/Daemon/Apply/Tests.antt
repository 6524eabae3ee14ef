-- ===== src/Daemon/Apply/Tests.antt =====
-- `apply_config` of ai-firewall/src/daemon.rs at a concrete configuration.
use ai_firewall.Prelude.{◌≡◌, refl, true, none, some, [], ◌∷◌, arith}
use ai_firewall.Text.{
  codes, split_once, parse_uint, digits_value, parse_ipv4, split, trim, parse_octet,
}
use ai_firewall.Addr.{v4}
use ai_firewall.Config.Cidr.{network, mask_of, leading_ones}
use ai_firewall.Config.Cidr
use ai_firewall.Config.Ports.{
  expand, collect, ports, rate, window_of, range_of, dedup, insert_sorted, sort,
}
use ai_firewall.State.Blocklist
use ai_firewall.State.{expiry_for}
use ai_firewall.Detector.{reconfigure}
use ai_firewall.Daemon.Bans.{try_remove}
use ai_firewall.Daemon.Rules.{
  compile, add_rule, parse_from, rule_key, sync_trie, sync_ports, set_all, difference,
  difference_keys,
}
use ai_firewall.Config.Settings.{
  Config, policy, blocked_cidrs, parse_all, enforce, with_profile, lookup_profile,
}
use ai_firewall.Detector.Tests.{thousandths}
use ai_firewall.Kernel.Sample.{bpf}
use ai_firewall.Posture.Tests.{cfg}
use ai_firewall.Daemon.{Shared}
use ai_firewall.Daemon.Tests.{ban_map, ban_map_laws, shared, table, table-Agrees}
use ai_firewall.Daemon.Apply.{
  Tables, apply_config, apply_shared, apply_bans, enter_each, listed, addresses, lift_each, stale,
  write_compiled, write_settings, write_ports, write_rates, write_from_tcp, write_from_udp,
  sync_rates, set_rates, clear_rates,
}
use ai_firewall.Daemon.Apply.ConfigBans.{Removes, IsConfigured, apply_shared-IsConfigured}
use ai_firewall.Daemon.Apply.Reached.{IsReached, apply_config-IsReached}

-- Four addresses are blocked.
abbrev blocking : Config
blocking = record cfg { blocked = codes "10.9.8.0/30" ∷ [] }

abbrev tables : Tables bpf
tables = record {
  settings = λ slot. some 0;
  tcp = table;
  udp = table;
  open_tcp = 80 ∷ [];
  open_udp = 80 ∷ [];
  from_tcp = λ key. none;
  from_udp = λ key. none;
  from_tcp_keys = [];
  from_udp_keys = [];
  rate = λ p. some 0;
  rate_set = [];
}

removes : Removes ban_map
removes m a h = cc

parsed : blocked_cidrs blocking ≡ some (network 0x0a090800 30 ∷ [])
unfolding blocked_cidrs ai_firewall.Config.Settings.parse_all ai_firewall.Config.Cidr.parse
    ai_firewall.Text.split_once ai_firewall.Text.parse_uint ai_firewall.Text.digits_value
    ai_firewall.Text.parse_ipv4 ai_firewall.Text.split ai_firewall.Text.trim
    ai_firewall.Text.parse_octet
parsed = refl

abbrev after : Shared thousandths
after = (apply_shared thousandths ban_map 1_000 blocking shared).0

shared_applied : apply_shared thousandths ban_map 1_000 blocking shared ≡ (after, true)
unfolding apply_shared blocked_cidrs parse_all Cidr.parse split_once parse_uint digits_value
    parse_ipv4 split trim parse_octet apply_bans enter_each listed addresses network mask_of enforce
    lift_each stale try_remove reconfigure Blocklist.insert Blocklist.remove expiry_for
shared_applied = refl

apply_shared-IsConfigured_example :
    IsConfigured (network 0x0a090800 30 ∷ []) 5_000 (v4 0x0a090802) shared after
apply_shared-IsConfigured_example =
    apply_shared-IsConfigured thousandths ban_map ban_map_laws removes 1_000 5_000 blocking
      (network 0x0a090800 30 ∷ []) shared after (v4 0x0a090802) (omega arith) (refl, (refl, tt))
      parsed shared_applied

abbrev tables_after : Tables bpf
tables_after =
    (apply_config bpf thousandths ban_map 32_768 1_000 blocking (policy blocking none) tables
      shared).0

applied :
    apply_config bpf thousandths ban_map 32_768 1_000 blocking (policy blocking none) tables shared
    ≡ (tables_after, after, true)
unfolding apply_shared blocked_cidrs parse_all Cidr.parse split_once parse_uint digits_value
    parse_ipv4 split trim parse_octet apply_bans enter_each listed addresses network mask_of enforce
    lift_each stale try_remove reconfigure Blocklist.insert Blocklist.remove expiry_for apply_config
    compile expand collect policy with_profile lookup_profile ports add_rule parse_from rate
    window_of range_of dedup insert_sorted sort rule_key leading_ones write_compiled write_settings
    write_ports write_rates write_from_tcp write_from_udp sync_trie sync_ports sync_rates set_rates
    clear_rates set_all difference difference_keys
applied = refl

apply_config-IsReached_example :
    IsReached bpf 32_768 blocking (policy blocking none) tables tables_after
    × (apply_shared thousandths ban_map 1_000 blocking shared ≡ (after, true))
apply_config-IsReached_example =
    apply_config-IsReached bpf thousandths ban_map 32_768 1_000 blocking (policy blocking none)
      tables tables_after shared after table-Agrees table-Agrees applied
