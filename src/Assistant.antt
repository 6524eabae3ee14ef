-- ===== src/Assistant.antt =====
-- ai-firewall/src/assistant.rs: the actions that a model may propose, and the filter of its thoughts.
-- The text of an IPv6 address is a parameter. The HTTP client and the facts for the model are not
-- modelled.
pub mod Think
pub mod Allowed
pub mod Tests
use mathlib.Core.List.{reverse}
use ai_firewall.Prelude.{
  ℕ, ◌≤◌, ◌<◌, Bool, true, false, not, ◌&&◌, ◌||◌, Option, none, some, List, [], ◌∷◌, ◌++◌, any,
  retain, map, ltb, leb, ◌-◌, ◌==◌, if◌then◌else◌,
}
use ai_firewall.Prelude.Option
use ai_firewall.Text.{Text, codes, text_eq, trim, parse_uint, print_uint, split, split_once}
use ai_firewall.Text.Words.{
  rsplit_once, strip_prefix, starts_with, contains_text, ends_with, split_whitespace, lines,
  trim_matches, to_lower,
}
use ai_firewall.Addr.{Src, v4, v6, src_eq, display, from_str}
use ai_firewall.Doctor.{Fix, fixes, find_fix, fix_summary}
use ai_firewall.SelfTest.{tests, is_test}

pub data Action : Type 0 where
  fix : Text → Action
  open_port : Text → ℕ → Action
  close_port : Text → ℕ → Action
  unban : Src → Action
  test : Text → Action

abbrev pub tcp : Text
tcp = codes "tcp"

abbrev pub udp : Text
udp = codes "udp"

abbrev pub u16_max : ℕ
u16_max = 65535

-- `==` on actions.
unfoldable pub action_eq : Action → Action → Bool
action_eq (fix a) (fix b) = text_eq a b
action_eq (open_port p n) (open_port q m) = text_eq p q && n == m
action_eq (close_port p n) (close_port q m) = text_eq p q && n == m
action_eq (unban a) (unban b) = src_eq a b
action_eq (test a) (test b) = text_eq a b
action_eq _ _ = false

unfoldable pub proto_of : Text → Option Text
unfolding to_lower
proto_of w =
    let low = map to_lower w in
    if text_eq low tcp then some tcp else if text_eq low udp then some udp else none

abbrev positive : Option ℕ → Option ℕ
positive none = none
positive (some n) = if ltb 0 n then some n else none

abbrev port_action : (Text → ℕ → Action) → Option Text → Option ℕ → Option Action
port_action make (some p) (some n) = some (make p n)
port_action make (some p) none = none
port_action make none n = none

abbrev fix_action : Option Fix → Option Action
fix_action none = none
fix_action (some f) = some (fix f.id)

unfoldable pub find_test : Text → List (Text × Text) → Option Action
find_test name [] = none
find_test name (t ∷ ts) = if text_eq t.0 name then some (test t.0) else find_test name ts

-- A line without white space and marks around it.
unfoldable pub bare : Text → Text
bare line = trim (trim_matches (λ c. c == b'*' || c == b'`' || c == b'-') (trim line))

abbrev keep_new : List Action → Option Action → List Action
keep_new out none = out
keep_new out (some a) = if any (λ b. action_eq b a) out then out else out ++ (a ∷ [])

module _ (parse_ipv6 : Text → Option ℕ) (print_ipv6 : ℕ → Text) where
  -- The `ai-firewall` arguments that carry the action out.
  unfoldable pub args : Action → List Text
  args (fix id) = codes "fix" ∷ id ∷ []
  args (open_port p n) = codes "open" ∷ p ∷ print_uint n [] ∷ []
  args (close_port p n) = codes "close" ∷ p ∷ print_uint n [] ∷ []
  args (unban src) = codes "unban" ∷ display parse_ipv6 print_ipv6 src ∷ []
  args (test name) = codes "test" ∷ name ∷ []

  two_words : Text → Text → Option Action
  unfolding find_fix find_test
  two_words w a =
      if text_eq w (codes "fix")
      then fix_action (find_fix a fixes)
      else if text_eq w (codes "unban")
      then Option.map unban (from_str parse_ipv6 print_ipv6 a)
      else if text_eq w (codes "test")
      then (if text_eq a (codes "all") then some (test (codes "all")) else find_test a tests)
      else none

  three_words : Text → Text → Text → Option Action
  unfolding proto_of
  three_words w p port =
      if text_eq w (codes "open")
      then port_action open_port (proto_of p) (positive (parse_uint u16_max port))
      else if text_eq w (codes "close")
      then port_action close_port (proto_of p) (parse_uint u16_max port)
      else none

  unfoldable pub parse_words : List Text → Option Action
  unfolding two_words three_words
  parse_words (w ∷ a ∷ []) = two_words w a
  parse_words (w ∷ p ∷ port ∷ []) = three_words w p port
  parse_words _ = none

  unfoldable pub parse : Text → Option Action
  parse text = parse_words (split_whitespace text)

  of_rest : List Action → Option Text → List Action
  of_rest out none = out
  of_rest out (some rest) = keep_new out (parse (trim_matches (λ c. c == b'`') (trim rest)))

  unfoldable pub of_line : List Action → Text → List Action
  unfolding of_rest
  of_line out line =
      let l = bare line in
      elim (strip_prefix (codes "ACTION:") l) [
        | some rest ↦ of_rest out (some rest)
        | none ↦ of_rest out (strip_prefix (codes "Action:") l)
      ]

  unfoldable pub of_lines : List Action → List Text → List Action
  of_lines out [] = out
  of_lines out (l ∷ ls) = of_lines (of_line out l) ls

  -- The actions of the lines like `ACTION: open tcp 22`.
  unfoldable pub parse_actions : Text → List Action
  parse_actions reply = of_lines [] (lines reply)

unfoldable pub to_upper : ℕ → ℕ
to_upper c = if leb b'a' c && leb c b'z' then c - 32 else c

unfoldable pub is_action_line : Text → Bool
unfolding to_upper
is_action_line l = starts_with (codes "ACTION:") (map to_upper (bare l))

abbrev join_lines : List Text → Text
join_lines [] = []
join_lines (l ∷ []) = l
join_lines (l ∷ m ∷ ls) = l ++ (b'\n' ∷ join_lines (m ∷ ls))

-- The reply without its action lines.
unfoldable pub strip_actions : Text → Text
strip_actions reply = trim (join_lines (retain (λ l. not (is_action_line l)) (lines reply)))

abbrev up_to_slash : List Text → Text → Text
up_to_slash [] rest = rest
up_to_slash (h ∷ hs) rest = h

abbrev front_of : Option (Text × Text) → Text → Text
front_of none host = host
front_of (some parts) host = parts.0

-- The name in a host, without the port and the brackets.
unfoldable pub host_name : Text → Text
unfolding rsplit_once
host_name host = trim_matches (λ c. c == b'[' || c == b']') (front_of (rsplit_once b':' host) host)

abbrev pub is_loopback_name : Text → Bool
is_loopback_name name =
    text_eq name (codes "localhost")
    || text_eq name (codes "127.0.0.1")
    || text_eq name (codes "::1")

with_port : Text → Option Text
with_port host =
    if not (is_loopback_name (host_name host))
    then none
    else if any (λ c. c == b':') host && not (ends_with (codes "]") host)
    then some host
    else some (host ++ codes ":11434")

-- The host and port of a local model; `none` is a refusal.
unfoldable pub local_host : Text → Option Text
unfolding with_port
local_host url = elim (strip_prefix (codes "http://") url) [
  | none ↦ none
  | some rest ↦ with_port (up_to_slash (split (λ c. c == b'/') rest) rest)
]
