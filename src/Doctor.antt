-- ===== src/Doctor.antt =====
-- ai-firewall/src/doctor.rs: the list of fixes, the reader of an nftables ruleset and the chains that
-- cut a bridge off.
pub mod Checks
pub mod Fixes
pub mod Unban
use ai_firewall.Prelude.{
  ℕ, Bool, false, not, ◌&&◌, ◌||◌, Option, none, some, List, [], ◌∷◌, ◌++◌, any, retain, ◌==◌,
  if◌then◌else◌,
}
use ai_firewall.Text.{Text, codes, text_eq, trim}
use ai_firewall.Text.Words.{
  strip_prefix, starts_with, contains_text, split_whitespace, lines, trim_end_matches,
  split_once_at,
}

-- The list of fixes: the whole of what may be changed from here.
pub record Fix : Type 0 where
  pub id : Text
  pub summary : Text

abbrev fix_of : Text → Text → Fix
fix_of id summary = record { id = id; summary = summary }

abbrev pub fixes : List Fix
fixes =
    fix_of (codes "start-firewall") (codes "restart the ai-firewall service")
    ∷ fix_of (codes "disable-ufw") (codes "turn ufw off and disable it (ai-firewall replaces it)")
    ∷ fix_of (codes "disable-firewalld") (codes "turn firewalld off and disable it")
    ∷ fix_of (codes "enable-forwarding")
        (codes "turn on IPv4 forwarding now and at boot (VMs and containers need it)")
    ∷ fix_of (codes "allow-vm-forwarding")
        (codes "let VM bridges through the FORWARD drop policy (out: all, in: replies only)")
    ∷ fix_of (codes "restart-libvirt-network")
        (codes "restart libvirt's networking so it re-adds its NAT rules")
    ∷ fix_of (codes "restart-resolved") (codes "restart systemd-resolved (DNS)")
    ∷ fix_of (codes "unban-protected")
        (codes "lift bans on your router, DNS servers, own addresses and VM networks")
    ∷ []

unfoldable pub find_fix : Text → List Fix → Option Fix
find_fix id [] = none
find_fix id (f ∷ fs) = if text_eq f.id id then some f else find_fix id fs

abbrev pub summary_of : Option Fix → Option Text
summary_of none = none
summary_of (some f) = some f.summary

unfoldable pub fix_summary : Text → Option Text
unfolding find_fix
fix_summary id = summary_of (find_fix id fixes)

pub record Chain : Type 0 where
  pub family : Text
  pub table : Text
  pub name : Text
  pub hook : Option Text
  pub policy_drop : Bool
  pub body : Text

-- What the reader keeps between two lines.
pub record Reader : Type 0 where
  pub family : Text
  pub table : Text
  pub current : Option Chain
  pub chains : List Chain

abbrev first_word : List Text → Text
first_word [] = []
first_word (w ∷ ws) = w

abbrev second_word : List Text → Text
second_word [] = []
second_word (w ∷ ws) = first_word ws

is_brace : ℕ → Bool
is_brace c = c == b'{'

-- `split("hook ").nth(1)`, and its first word.
up_to : Text → Text → Text
up_to p s = elim (split_once_at p s) [ none ↦ s | some (front, rest) ↦ front ]

word_of : List Text → Option Text
word_of [] = none
word_of (w ∷ ws) = some w

unfoldable pub hook_of : Text → Option Text
unfolding up_to word_of
hook_of t = elim (split_once_at (codes "hook ") t) [
  | none ↦ none
  | some (front, rest) ↦ word_of (split_whitespace (up_to (codes "hook ") rest))
]

-- A line inside a chain.
body_line : Text → Chain → Chain
body_line t c =
    if starts_with (codes "type ") t
    then record c { hook = hook_of t; policy_drop = contains_text (codes "policy drop") t }
    else record c { body = c.body ++ (t ++ (b'\n' ∷ [])) }

close_chain : Reader → Option Chain → Reader
close_chain r none = r
close_chain r (some c) = record r { current = none; chains = r.chains ++ (c ∷ []) }

other_line : Text → Reader → Option Chain → Reader
other_line t r none = r
other_line t r (some c) = record r { current = some (body_line t c) }

open_chain : Reader → Text → Reader
open_chain r rest = record r {
  current = some (record {
    family = r.family;
    table = r.table;
    name = trim (trim_end_matches is_brace rest);
    hook = none;
    policy_drop = false;
    body = [];
  });
}

open_table : Reader → List Text → Reader
open_table r words = record r { family = first_word words; table = second_word words }

unfoldable pub read_line : Reader → Text → Reader
unfolding open_table open_chain close_chain other_line body_line is_brace
read_line r t = elim (strip_prefix (codes "table ") t) [
  | some rest ↦ open_table r (split_whitespace (trim_end_matches is_brace rest))
  | none ↦ elim (strip_prefix (codes "chain ") t) [
    | some rest ↦ open_chain r rest
    | none ↦ if text_eq t (codes "}") then close_chain r r.current else other_line t r r.current
  ]
]

unfoldable pub read_lines : Reader → List Text → Reader
read_lines r [] = r
read_lines r (l ∷ ls) = read_lines (read_line r (trim l)) ls

unfoldable pub parse_ruleset : Text → List Chain
parse_ruleset text =
    (read_lines (record { family = []; table = []; current = none; chains = [] })
      (lines text)).chains

-- The bridges whose manager makes no hole of its own in a FORWARD drop.
unfoldable pub vm_bridges : List Text → List Text
vm_bridges names =
    retain
      (λ b.
        starts_with (codes "virbr") b
        || starts_with (codes "lxdbr") b
        || starts_with (codes "vmnet") b)
      names

abbrev is_forward : Option Text → Bool
is_forward none = false
is_forward (some h) = text_eq h (codes "forward")

unfoldable pub lets_out : Text → Chain → Bool
lets_out bridge c =
    any
      (λ l.
        contains_text (codes "iifname \"" ++ (bridge ++ (b'"' ∷ []))) l
        && contains_text (codes "accept") l)
      (lines c.body)

-- The forward base chains that drop by default and do not let the bridge out yet.
unfoldable pub blocking_forward_chains : List Chain → Text → List Chain
unfolding lets_out
blocking_forward_chains chains bridge =
    retain (λ c. is_forward c.hook && (c.policy_drop && not (lets_out bridge c))) chains
