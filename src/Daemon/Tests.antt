-- ===== src/Daemon/Tests.antt =====
-- The theorems on ai-firewall/src/state.rs, ai-firewall/src/history.rs and ai-firewall/src/daemon.rs
-- at a concrete state.
use ai_firewall.Prelude.{
  ℕ, ◌≡◌, ◌↔◌, ◌⊎◌, refl, true, false, none, some, List, [], ◌∷◌, get, insert, remove, contains_key,
  KernelMap, nat_eq, contains, ltb, arith, if◌then◌else◌,
}
use ai_firewall.Prelude.MapLaws.{get-insert, get-remove}
use ai_firewall.Text.{codes, print_ipv4, digits_value, parse_uint, trim, split_once, Text}
use ai_firewall.Addr.{Src, v4, v6, src_Eq, src_eq}
use ai_firewall.Config.Ports.{
  one, text, expand, collect, ports, dedup, sort, range_of, insert_sorted, rate,
}
use ai_firewall.Kernel.Maps.{live, port_open}
use ai_firewall.Detector.Tests.{thousandths, fresh, attempt, the_ban}
use ai_firewall.State.{expiry_for}
use ai_firewall.State.Blocklist.{Blocklist, BanMap, BanMapLaws, lookup, entries}
use ai_firewall.State.Blocklist
use ai_firewall.History.Throttle.{Step, banned, flushed, run, Apart, run-Apart}
use ai_firewall.Daemon.{Shared}
use ai_firewall.Daemon.Bans.{enact, sweep, auto_record, refresh_protection}
use ai_firewall.Daemon.Bans.Enact.{enact-live}
use ai_firewall.Daemon.Bans.Sweep.{sweep-live}
use ai_firewall.Daemon.Bans.Protection.{
  event, sweeps, perform_all, SparesProtected, daemon-SparesProtected,
}
use ai_firewall.Config.Settings.{Policy}
use ai_firewall.Daemon.Rules.{Compiled, compile, sync_ports, add_rule, parse_from}
use ai_firewall.Daemon.Rules.Sync.{Agrees}
use ai_firewall.Daemon.Rules.Opened.{Opens, Listed, open_set, compile-Opens}

-- Maps that are never full.
abbrev pub ban_map : BanMap
ban_map = record {
  map_insert = λ m a v. some (insert a v m);
  map_remove = λ m a. some (remove a m);
}

pub ban_map_laws : BanMapLaws ban_map
ban_map_laws = record {
  get-map_insert = λ m m' a v j h. ground (arith, get-insert a j v m);
  get-map_remove = λ m m' a j h. ground (arith, get-remove a j m);
}

-- One ban that is over, one by hand that is not, and one record too many.
abbrev pub shared : Shared thousandths
shared = record {
  detector = fresh;
  blocklist = record { v4_map = (7, 900) ∷ (8, 0) ∷ []; v6_map = none };
  records =
      (v4 7, record { reason = []; source = codes "auto"; strikes = 1 })
      ∷ (v4 5, record { reason = []; source = codes "manual"; strikes = 0 })
      ∷ [];
  enforce = true;
  recent = [];
  dirty = false;
  notify_bans = true;
  notes = record { shown = []; count = 0; last_sent = none };
}

abbrev pub show : Src → Text
show (v4 ip) = print_ipv4 ip
show (v6 p) = []

sweep-live_example :
    contains_key (v4 8) (sweep thousandths ban_map (λ _. 1_000) shared).records
    ≡ live 1_000 (get (v4 8) (entries shared.blocklist))
unfolding entries
sweep-live_example = sweep-live thousandths ban_map (λ _. 1_000) shared (v4 8) (refl, (refl, tt))

enact-live_example :
    let s' = enact thousandths ban_map show 1_000 0 shared the_ban in
    (live 2_000 (lookup s'.blocklist (v4 0x09090909)) ≡ (
      if src_eq the_ban.ip (v4 0x09090909)
      then ltb 2_000 600_000_001_000
      else live 2_000 (lookup shared.blocklist (v4 0x09090909))))
    × (get the_ban.ip s'.records ≡ some (auto_record thousandths ban_map the_ban))
unfolding Blocklist.insert expiry_for
enact-live_example =
    enact-live thousandths ban_map show 1_000 0 2_000 shared the_ban
      (record { v4_map = (7, 900) ∷ (8, 0) ∷ (0x09090909, 600_000_001_000) ∷ []; v6_map = none })
      (v4 0x09090909) ban_map_laws refl refl (omega arith) (omega arith) (omega arith)

daemon-SparesProtected_example : SparesProtected thousandths ban_map (
    perform_all thousandths ban_map show
      (refresh_protection thousandths ban_map [] [] (codes "0.0.0.0/24" ∷ []) shared)
      (event 100 1_000 0 attempt ∷ sweeps (λ _. 1_000) ∷ []))
daemon-SparesProtected_example =
    daemon-SparesProtected thousandths ban_map show shared [] [] (codes "0.0.0.0/24" ∷ [])
      (event 100 1_000 0 attempt ∷ sweeps (λ _. 1_000) ∷ [])

abbrev steps : List Step
steps =
    banned (codes "1.2.3.4") (codes "port scan")
    ∷ flushed 100
    ∷ banned (codes "1.2.3.5") []
    ∷ flushed 130
    ∷ flushed 160
    ∷ []

run-Apart_example : Apart none (run shared.notes steps).1
run-Apart_example = run-Apart shared.notes steps refl

abbrev pub table : KernelMap ℕ ℕ
table p = some (if contains p (80 ∷ []) then 1 else 0)

pub table-Agrees : Agrees table (80 ∷ [])
unfolding port_open
table-Agrees p = ground arith

-- A range in the list, and a rule without a network.
abbrev policy : Policy
policy = record {
  profile = none;
  allow_tcp = text (codes "8000-8001") ∷ [];
  allow_udp = [];
  allow_ping = true;
  rules = record { proto = codes "tcp"; port = one 22; from = none; limit = none } ∷ [];
}

abbrev compiled : Compiled
compiled = record {
  tcp = 22 ∷ 8000 ∷ 8001 ∷ [];
  udp = 68 ∷ 546 ∷ [];
  from_tcp = [];
  from_udp = [];
  rates = [];
}

compiles : compile policy ≡ some compiled
unfolding compile expand collect ports parse_uint trim split_once digits_value add_rule parse_from
    rate range_of dedup sort insert_sorted
compiles = refl

compile-Opens_example :
    (port_open (sync_ports table (80 ∷ []) (open_set true compiled)).0 22 ≡ true)
    ↔ (Opens true 22 policy.rules ⊎ Listed true 22 policy)
compile-Opens_example = compile-Opens policy compiled true table (80 ∷ []) 22 compiles table-Agrees
