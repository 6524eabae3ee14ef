-- ===== src/Assistant/Tests.antt =====
-- The replies and the pieces of ai-firewall/src/assistant.rs on concrete texts.
use ai_firewall.Prelude.{ℕ, ◌≡◌, refl, Option, some, none, List, [], ◌∷◌}
use ai_firewall.Text.{Text, codes, trim_start, print_uint, parse_uint}
use ai_firewall.Assistant.{Action, fix, open_port, parse_actions, strip_actions, local_host, tcp}
use ai_firewall.Assistant.Allowed.{IsProposal, parse_actions-IsProposal}
use ai_firewall.Assistant.Think.{new, stream}
use ai_firewall.Assistant.Think.Whole.{shown, whole, stream-shown}

-- A host whose IPv6 addresses have no text.
abbrev no_ipv6 : Text → Option ℕ
no_ipv6 s = none

abbrev no_text : ℕ → Text
no_text ip = []

abbrev reply : Text
reply =
    codes
      "Try this:\n- ACTION: open TCP 22\n`ACTION: fix rm -rf /`\nACTION: open tcp 22\nAction: fix disable-ufw\n"

two_actions :
    parse_actions no_ipv6 no_text reply ≡ open_port tcp 22 ∷ fix (codes "disable-ufw") ∷ []
unfolding parse_actions ai_firewall.Assistant.of_lines ai_firewall.Text.Words.lines
    ai_firewall.Text.split ai_firewall.Assistant.of_line ai_firewall.Text.Words.strip_prefix
    ai_firewall.Assistant.bare ai_firewall.Text.trim ai_firewall.Text.Words.trim_matches
    ai_firewall.Assistant.parse ai_firewall.Assistant.parse_words
    ai_firewall.Text.Words.split_whitespace parse_uint ai_firewall.Text.digits_value
    ai_firewall.Assistant.action_eq
two_actions = refl

spoken : strip_actions reply ≡ codes "Try this:"
unfolding strip_actions ai_firewall.Text.trim ai_firewall.Text.Words.lines ai_firewall.Text.split
    ai_firewall.Assistant.is_action_line ai_firewall.Text.Words.strip_prefix
    ai_firewall.Assistant.bare ai_firewall.Text.Words.trim_matches
spoken = refl

parse_actions-IsProposal_example : IsProposal (parse_actions no_ipv6 no_text reply)
parse_actions-IsProposal_example = parse_actions-IsProposal no_ipv6 no_text reply

abbrev pieces : List Text
pieces = codes " <th" ∷ codes "ink>hm</th" ∷ codes "ink>\n" ∷ codes " Yes." ∷ []

in_pieces : stream new pieces ≡ codes " Yes."
unfolding stream ai_firewall.Assistant.Think.push ai_firewall.Assistant.Think.push_start
    ai_firewall.Assistant.Think.unclear trim_start ai_firewall.Text.Words.strip_prefix
    ai_firewall.Assistant.Think.push_thinking ai_firewall.Text.Words.split_once_at
    ai_firewall.Assistant.Think.finish
in_pieces = refl

stream-shown_example : trim_start (stream new pieces) ≡ trim_start (shown (whole pieces))
stream-shown_example = stream-shown pieces

local : local_host (codes "http://localhost/api") ≡ some (codes "localhost:11434")
unfolding local_host ai_firewall.Text.Words.strip_prefix ai_firewall.Assistant.host_name
    ai_firewall.Text.Words.trim_matches ai_firewall.Text.split
local = refl

remote : local_host (codes "http://10.0.0.1:11434") ≡ none
unfolding local_host ai_firewall.Text.Words.strip_prefix ai_firewall.Assistant.host_name
    ai_firewall.Text.Words.trim_matches ai_firewall.Text.split
remote = refl

-- The loopback address of IPv6 is taken with a port, and not without one.
bracketed : local_host (codes "http://[::1]:11434/") ≡ some (codes "[::1]:11434")
unfolding local_host ai_firewall.Text.Words.strip_prefix ai_firewall.Assistant.host_name
    ai_firewall.Text.Words.trim_matches ai_firewall.Text.split ai_firewall.Text.Words.ends_with
bracketed = refl

bracketed_without_port : local_host (codes "http://[::1]/") ≡ none
unfolding local_host ai_firewall.Text.Words.strip_prefix ai_firewall.Assistant.host_name
    ai_firewall.Text.Words.trim_matches ai_firewall.Text.split
bracketed_without_port = refl
