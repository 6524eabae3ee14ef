-- ===== src/Links/Tests.antt =====
-- The attachments of ai-firewall/src/links.rs on a concrete interface.
use ai_firewall.Prelude.{
  ℕ, ◌≡◌, refl, true, false, some, List, [], ◌∷◌, arith, leb, length, if◌then◌else◌,
}
use ai_firewall.Text.{codes, print_uint}
use ai_firewall.Links.{
  Answer, Answers, Files, attached, busy, refused, guarding, retry_busy, attach_xdp, pinned_ifaces,
  unpin_all, fresh_xdp, pin_link, write_meta, link_name, meta_text,
}
use ai_firewall.Links.Busy.{IsLast, retry_busy_ends}
use ai_firewall.Links.Takeover.{restart_takes_over}
use ai_firewall.Links.Unpinned.{unpin_all_stops}

-- The old link is freed after five calls.
abbrev freed_late : ℕ → Answer
freed_late n = if leb 5 n then attached else busy

waits : retry_busy freed_late ≡ some attached
unfolding retry_busy
waits = refl

retry_busy_ends_example :
    (last : ℕ) × IsLast freed_late 0 last × (retry_busy freed_late ≡ some (freed_late last))
retry_busy_ends_example = retry_busy_ends freed_late

abbrev willing : Answers
willing = record {
  swap = true;
  attach = freed_late;
  attach_skb = λ n. refused;
  take_link = true;
  link_fd = true;
  pin = true;
  write = true;
}

abbrev wlan : List ℕ
wlan = codes "wlan0"

abbrev no_links : Files
no_links = record { pins = []; metas = [] }

abbrev one_link : Files
one_link = record {
  pins = codes "link-xdp-wlan0" ∷ [];
  metas = (codes "link-xdp-wlan0", codes "3 native\n") ∷ [];
}

attaches : attach_xdp willing wlan 3 no_links ≡ (one_link, guarding (codes "native") false)
unfolding attach_xdp fresh_xdp retry_busy pin_link write_meta link_name meta_text print_uint
attaches = refl

restart_takes_over_example :
    attach_xdp willing wlan 3 one_link ≡ (one_link, guarding (codes "native") true)
restart_takes_over_example =
    restart_takes_over willing willing wlan (codes "native") 3 false no_links one_link (omega arith)
      refl refl refl attaches

all_unpinned :
    (pinned_ifaces (unpin_all one_link).0 ≡ [])
    × ((unpin_all one_link).1 ≡ length (pinned_ifaces one_link))
all_unpinned = unpin_all_stops one_link
