-- ===== src/Daemon/Uplink.antt =====
-- ai-firewall/src/daemon.rs, `heal`: each tick the daemon looks for the interface to guard, and
-- attaches both programs where they are not attached yet. What the host and the kernel answer in
-- the tick is a record.
pub mod Guarding
pub mod Regained
pub mod Tests
use ai_firewall.Prelude.{
  ℕ, Bool, true, false, not, ◌&&◌, Option, none, some, List, [], ◌∷◌, retain, ◌==◌, if◌then◌else◌,
}
use ai_firewall.Text.{Text, codes, text_eq}
use ai_firewall.Links.{
  Answers, Files, Outcome, failed, guarding, unpin, unpin_each, pinned_ifaces, attach_xdp,
  attach_tc,
}

pub record Attachment : Type 0 where
  pub iface : Text
  pub ifindex : ℕ
  pub mode : Text
  pub egress : Bool

-- The answers of one tick: the interface of the default route, the index of an interface, and what
-- the kernel says to each of the two programs.
pub record Host : Type 0 where
  pub default_iface : Option Text
  pub ifindex : Text → Option ℕ
  pub tc : Answers
  pub xdp : Answers

pub record Uplink : Type 0 where
  pub attachment : Option Attachment
  pub files : Files

abbrev iface_of : Option Attachment → Option Text
iface_of none = none
iface_of (some a) = some a.iface

abbrev pub or_else : Option Text → Option Text → Option Text
or_else none other = other
or_else (some i) other = some i

-- The interface to guard: the uplink, or the configured one.
unfoldable pub wanted_iface : Text → Host → Option Attachment → Option Text
wanted_iface interface host current =
    if text_eq interface (codes "auto")
    then or_else host.default_iface (iface_of current)
    else some interface

abbrev is_iface : Option Text → Text → Bool
is_iface none name = false
is_iface (some i) name = text_eq i name

abbrev is_index : Option ℕ → ℕ → Bool
is_index none n = false
is_index (some i) n = i == n

-- The attachment still is on the wanted interface, which was not made anew.
unfoldable pub still_good : Option Text → Host → Attachment → Bool
still_good wanted host a = is_iface wanted a.iface && is_index (host.ifindex a.iface) a.ifindex

unfoldable pub unpin_both : Text → Files → Files
unpin_both iface w = unpin (codes "tc") iface (unpin (codes "xdp") iface w)

abbrev pub is_guarding : Outcome → Bool
is_guarding failed = false
is_guarding (guarding mode reused) = true

-- The end of the tick, by the outcome for the filter.
abbrev settle : Text → ℕ → Bool → Files × Outcome → Uplink × Bool
settle iface idx egress (w, failed) = (record { attachment = none; files = w }, false)
settle iface idx egress (w, guarding mode reused) = (
  record {
    attachment = some (record { iface = iface; ifindex = idx; mode = mode; egress = egress });
    files = w;
  },
  true,
)

-- The egress program first, so that flows are recorded before strict UDP looks for them.
unfoldable pub attach_both : Host → Text → ℕ → Files → Uplink × Bool
attach_both host iface idx w =
    let w' = unpin_each (retain (λ i. not (text_eq i iface)) (pinned_ifaces w)) w in
    let tc = attach_tc host.tc iface idx w' in
    settle iface idx (is_guarding tc.1) (attach_xdp host.xdp iface idx tc.0)

attach_wanted : Host → Option Text → Files → Uplink × Bool
attach_wanted host none w = (record { attachment = none; files = w }, false)
attach_wanted host (some iface) w = elim (host.ifindex iface) [
  | none ↦ (record { attachment = none; files = w }, false)
  | some idx ↦ attach_both host iface idx w
]

heal_from : Option Text → Host → Option Attachment → Files → Uplink × Bool
heal_from wanted host none w = attach_wanted host wanted w
heal_from wanted host (some a) w =
    if still_good wanted host a
    then (record { attachment = some a; files = w }, false)
    else attach_wanted host wanted (unpin_both a.iface w)

-- Whether anything was attached, and the state after the tick.
unfoldable pub heal : Text → Host → Uplink → Uplink × Bool
unfolding heal_from attach_wanted
heal interface host u =
    heal_from (wanted_iface interface host u.attachment) host u.attachment u.files
