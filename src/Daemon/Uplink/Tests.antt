-- ===== src/Daemon/Uplink/Tests.antt =====
-- The tick of ai-firewall/src/daemon.rs on a concrete host.
use ai_firewall.Prelude.{
  ℕ, ◌≤◌, ◌≡◌, refl, Bool, true, false, some, none, [], ◌∷◌, ltb, if◌then◌else◌, arith,
}
use ai_firewall.Text.{Text, codes, text_eq, parse_uint, print_uint, split_once, trim}
use ai_firewall.Links.{
  Answer, Answers, Files, attached, busy, refused, u32_max, attach_xdp, attach_tc, unpin_each,
  pinned_ifaces, link_ifaces, unpin, link_name, fresh_tc, fresh_xdp, retry_busy, pin_link,
  write_meta, meta_text, parse_meta, read_meta, take_over,
}
use ai_firewall.Text.Words.{strip_prefix, ends_with}
use ai_firewall.Daemon.Uplink.{
  Attachment, Host, Uplink, heal, still_good, wanted_iface, attach_both, unpin_both,
}
use ai_firewall.Daemon.Uplink.Guarding.{Guards, heal-Guards}
use ai_firewall.Daemon.Uplink.Regained.{IsGuarding, heal_guards_wanted}

-- The program is attached at the second call.
abbrev answers : Bool → Answers
answers fine = record {
  swap = false;
  attach = λ n. if ltb 0 n then (if fine then attached else refused) else busy;
  attach_skb = λ n. refused;
  take_link = true;
  link_fd = true;
  pin = true;
  write = true;
}

abbrev wired : Text
wired = codes "enp2s0"

-- The default route has moved from the wireless to the wired network, and the kernel refuses the
-- egress program.
abbrev docked : Host
docked = record {
  default_iface = some wired;
  ifindex = λ i. if text_eq i wired then some 2 else none;
  tc = answers false;
  xdp = answers true;
}

abbrev on_wireless : Uplink
on_wireless = record {
  attachment =
      some (record { iface = codes "wlan0"; ifindex = 3; mode = codes "generic"; egress = true });
  files = record {
    pins = codes "link-xdp-wlan0" ∷ codes "link-tc-wlan0" ∷ [];
    metas =
        (codes "link-xdp-wlan0", codes "3 generic\n")
        ∷ (codes "link-tc-wlan0", codes "3 tcx\n")
        ∷ [];
  };
}

abbrev on_wired : Uplink
on_wired = record {
  attachment = some (record { iface = wired; ifindex = 2; mode = codes "native"; egress = false });
  files = record {
    pins = codes "link-xdp-enp2s0" ∷ [];
    metas = (codes "link-xdp-enp2s0", codes "2 native\n") ∷ [];
  };
}

moves : heal (codes "auto") docked on_wireless ≡ (on_wired, true)
unfolding heal still_good wanted_iface attach_both attach_xdp attach_tc unpin_each pinned_ifaces
    link_ifaces unpin_both unpin link_name fresh_tc fresh_xdp retry_busy pin_link write_meta
    meta_text parse_meta read_meta take_over ends_with strip_prefix parse_uint print_uint split_once
    trim
moves = refl

stays : heal (codes "auto") docked on_wired ≡ (on_wired, false)
unfolding heal ai_firewall.Daemon.Uplink.still_good ai_firewall.Daemon.Uplink.wanted_iface
stays = refl

wireless-Guards : Guards on_wireless
unfolding ai_firewall.Links.link_name ai_firewall.Links.read_meta ai_firewall.Links.parse_meta
    ai_firewall.Text.split_once ai_firewall.Text.trim ai_firewall.Text.parse_uint
wireless-Guards = record {
  filter = record { pin = refl; meta = refl };
  flows = (codes "tcx", record { pin = refl; meta = refl });
}

docked_indices : (i : Text) (n : ℕ) → docked.ifindex i ≡ some n → n ≤ u32_max
docked_indices i n h = ground arith

heal-Guards_example : Guards (heal (codes "auto") docked on_wireless).0
heal-Guards_example =
    heal-Guards (codes "auto") docked on_wireless refl refl docked_indices wireless-Guards

-- The driver has no native mode.
abbrev generic_only : Host
generic_only = record docked {
  xdp = record (answers false) { attach_skb = λ n. if ltb 0 n then attached else busy };
}

heal_guards_wanted_example : IsGuarding wired 2 (heal (codes "auto") generic_only on_wireless).0
unfolding ai_firewall.Daemon.Uplink.wanted_iface ai_firewall.Links.retry_busy
heal_guards_wanted_example =
    heal_guards_wanted (codes "auto") generic_only on_wireless wired 2 refl refl
      (record { attaches = refl; takes = refl; pins = refl })
