-- ===== src/Daemon/Apply.antt =====
-- ai-firewall/src/daemon.rs, `apply_config`: a configuration and a policy are written to the kernel's
-- tables, and the bans of the configuration to the ban maps. A write to a table of settings, ports or
-- rates succeeds; a trie and a ban map may be full. A call that fails keeps what was written before.
pub mod Listed
pub mod ConfigBans
pub mod Reached
pub mod Tests
use ai_firewall.Prelude.{
  ℕ, zero, suc, ◌+◌, ◌-◌, ◌%◌, ◌^◌, Bool, true, false, not, ◌&&◌, Option, none, some, List, [], ◌∷◌,
  ◌++◌, KernelMap, update, nat_eq, get, insert, remove, contains_key, map, any, retain,
  if◌then◌else◌,
}
use ai_firewall.Text.{Text, codes, text_eq}
use ai_firewall.Wire.{cfg_enforce, cfg_ephemeral_low, cfg_drop_ping}
use ai_firewall.Addr.{Src, v4, src_Eq, src_eq}
use ai_firewall.Kernel.Interface.{Bpf}
use ai_firewall.Config.Cidr.{Cidr, u32_max}
use ai_firewall.Config.Settings.{Config, Policy, enforce, blocked_cidrs}
use ai_firewall.Detector.{reconfigure}
use ai_firewall.Detector.Float.{Float32}
use ai_firewall.State.{BanRecord, expiry_for}
use ai_firewall.State.Blocklist.{Blocklist, BanMap}
use ai_firewall.State.Blocklist
use ai_firewall.Daemon.{Shared}
use ai_firewall.Daemon.Bans.{try_remove}
use ai_firewall.Daemon.Rules.{Compiled, compile, sync_ports, sync_trie}

-- `cidr.net .. cidr.net + size`, as sources.
unfoldable pub addresses_from : ℕ → ℕ → List Src
addresses_from zero ip = []
addresses_from (suc n) ip = v4 (ip % 2 ^ 32) ∷ addresses_from n (ip + 1)

unfoldable pub addresses : Cidr → List Src
unfolding addresses_from
addresses c = addresses_from (u32_max - c.mask + 1) c.net

unfoldable pub listed : List Cidr → List Src
listed [] = []
listed (c ∷ cs) = addresses c ++ listed cs

abbrev pub member : Src → List Src → Bool
member ip ips = any (λ i. src_eq i ip) ips

abbrev pub config_record : BanRecord
config_record = record { reason = codes "blocked in config"; source = codes "config"; strikes = 0 }

abbrev pub from_config : BanRecord → Bool
from_config r = text_eq r.source (codes "config")

-- The records of the configuration that it does not list any more.
unfoldable pub stale : List Src → List (Src × BanRecord) → List Src
stale ips records = map (λ r. r.0) (retain (λ r. from_config r.1 && not (member r.0 ips)) records)

unfoldable pub set_rates : List (ℕ × ℕ) → KernelMap ℕ ℕ → KernelMap ℕ ℕ
set_rates [] m = m
set_rates ((port, packed) ∷ rates) m = set_rates rates (update m port packed)

unfoldable pub clear_rates : List (ℕ × ℕ) → List (ℕ × ℕ) → KernelMap ℕ ℕ → KernelMap ℕ ℕ
clear_rates rates [] m = m
clear_rates rates ((port, packed) ∷ old) m =
    clear_rates rates old (if contains_key port rates then m else update m port 0)

-- The rates that are gone are set to 0, and then the wanted ones.
unfoldable pub sync_rates : KernelMap ℕ ℕ → List (ℕ × ℕ) → List (ℕ × ℕ) → KernelMap ℕ ℕ
sync_rates m old rates = set_rates rates (clear_rates rates old m)

abbrev pub bit : Bool → ℕ
bit false = 0
bit true = 1

module _ (fl : Float32) (k : BanMap) where
  unfoldable pub lift_each : List Src → Shared fl → Shared fl
  lift_each [] s = s
  lift_each (ip ∷ ips) s =
      lift_each ips
        (record s { blocklist = try_remove fl k s.blocklist ip; records = remove ip s.records })

  -- Stops at the first ban that a map does not take.
  unfoldable pub enter_each : ℕ → List Src → Shared fl → Shared fl × Bool
  enter_each boot_ns [] s = (s, true)
  enter_each boot_ns (ip ∷ ips) s =
      elim (Blocklist.insert k s.blocklist ip (expiry_for boot_ns 0)) [
        | none ↦ (s, false)
        | some b ↦
            enter_each boot_ns ips
              (record s { blocklist = b; records = insert ip config_record s.records })
      ]

  unfoldable pub apply_bans : ℕ → List Src → Shared fl → Shared fl × Bool
  apply_bans boot_ns ips s = enter_each boot_ns ips (lift_each (stale ips s.records) s)

  abbrev set_dirty : Shared fl × Bool → Shared fl × Bool
  set_dirty (s, false) = (s, false)
  set_dirty (s, true) = (record s { dirty = true }, true)

  blocked_bans : ℕ → Option (List Cidr) → Shared fl → Shared fl × Bool
  blocked_bans boot_ns none s = (s, false)
  blocked_bans boot_ns (some cidrs) s = set_dirty (apply_bans boot_ns (listed cidrs) s)

  -- The daemon's part: its flags, the detector's settings and the bans of the configuration.
  unfoldable pub apply_shared : ℕ → Config → Shared fl → Shared fl × Bool
  unfolding blocked_bans
  apply_shared boot_ns cfg s = blocked_bans boot_ns (blocked_cidrs cfg) (record s {
    enforce = enforce cfg;
    notify_bans = cfg.notify.bans;
    detector = reconfigure s.detector cfg.detector cfg.bans;
  })

module _ (b : Bpf) where
  open b use {Trie}

  -- The tables in the kernel, with what was last written to them.
  pub record Tables : Type 0 where
    pub settings : KernelMap ℕ ℕ
    pub tcp : KernelMap ℕ ℕ
    pub udp : KernelMap ℕ ℕ
    pub open_tcp : List ℕ
    pub open_udp : List ℕ
    pub from_tcp : Trie
    pub from_udp : Trie
    pub from_tcp_keys : List (ℕ × List ℕ)
    pub from_udp_keys : List (ℕ × List ℕ)
    pub rate : KernelMap ℕ ℕ
    pub rate_set : List (ℕ × ℕ)

  -- `low` is what `net::ephemeral_low` returns.
  unfoldable pub write_settings : ℕ → Config → Policy → Tables → Tables
  write_settings low cfg policy t = record t {
    settings =
        update (update (update t.settings cfg_enforce (bit (enforce cfg))) cfg_ephemeral_low low)
          cfg_drop_ping (bit (not policy.allow_ping));
  }

  unfoldable pub write_ports : Compiled → Tables → Tables
  write_ports c t =
      let tcp = sync_ports t.tcp t.open_tcp c.tcp in
      let udp = sync_ports t.udp t.open_udp c.udp in
      record t { tcp = tcp.0; open_tcp = tcp.1; udp = udp.0; open_udp = udp.1 }

  unfoldable pub write_rates : Compiled → Tables → Tables
  write_rates c t = record t { rate = sync_rates t.rate t.rate_set c.rates; rate_set = c.rates }

  unfoldable pub write_from_tcp : Compiled → Tables → Tables × Bool
  write_from_tcp c t =
      let (trie, keys, done) = sync_trie b t.from_tcp t.from_tcp_keys c.from_tcp in
      (record t { from_tcp = trie; from_tcp_keys = keys }, done)

  unfoldable pub write_from_udp : Compiled → Tables → Tables × Bool
  write_from_udp c t =
      let (trie, keys, done) = sync_trie b t.from_udp t.from_udp_keys c.from_udp in
      (record t { from_udp = trie; from_udp_keys = keys }, done)

  then_rates : Compiled → Tables × Bool → Tables × Bool
  then_rates c (t, false) = (t, false)
  then_rates c (t, true) = (write_rates c t, true)

  then_udp : Compiled → Tables × Bool → Tables × Bool
  unfolding then_rates
  then_udp c (t, false) = (t, false)
  then_udp c (t, true) = then_rates c (write_from_udp c t)

  unfoldable pub write_compiled : Compiled → Tables → Tables × Bool
  unfolding then_udp
  write_compiled c t = then_udp c (write_from_tcp c (write_ports c t))

  module _ (fl : Float32) (k : BanMap) where
    with_shared : ℕ → Config → Shared fl → Tables × Bool → Tables × Shared fl × Bool
    with_shared boot_ns cfg s (t, false) = (t, s, false)
    with_shared boot_ns cfg s (t, true) =
        let applied = apply_shared fl k boot_ns cfg s in (t, applied.0, applied.1)

    write_policy : ℕ → Config → Option Compiled → Tables → Shared fl → Tables × Shared fl × Bool
    unfolding with_shared
    write_policy boot_ns cfg none t s = (t, s, false)
    write_policy boot_ns cfg (some c) t s = with_shared boot_ns cfg s (write_compiled c t)

    -- The tables, the shared state, and whether all went well.
    unfoldable pub apply_config :
        ℕ → ℕ → Config → Policy → Tables → Shared fl → Tables × Shared fl × Bool
    unfolding write_policy
    apply_config low boot_ns cfg policy t s =
        write_policy boot_ns cfg (compile policy) (write_settings low cfg policy t) s
