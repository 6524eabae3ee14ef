-- ===== src/Wire/Flags.antt =====
-- The TCP flags bit by bit, to read the mask tests of ai-firewall-common/src/lib.rs and of the
-- kernel's `policy` against.
use ai_firewall.Prelude.{ℕ, ◌/◌, ◌%◌, ◌^◌, Bool, not, ◌&&◌, ◌||◌, ◌==◌}

-- Bit k of a number.
abbrev pub has : ℕ → ℕ → Bool
has k f = f / 2 ^ k % 2 == 1

-- Flags that no real connection carries: none at all, FIN with PSH and URG, or FIN without ACK.
abbrev pub scan_flags : ℕ → Bool
scan_flags f = f == 0 || has 0 f && has 3 f && has 5 f || has 0 f && not (has 4 f)

-- Flags that ask for a new connection: SYN without ACK.
abbrev pub asks : ℕ → Bool
asks f = has 1 f && not (has 4 f)
