-- ===== src/State/Expiry.antt =====
-- When a ban ends: `expiry_for` and `remaining` of ai-firewall/src/state.rs against the kernel's
-- `live` (ai-firewall-ebpf/src/main.rs).
use ai_firewall.Prelude.{ℕ, ◌+◌, ◌*◌, ◌%◌, ◌^◌, ◌≤◌, ◌<◌, ◌≡◌, some, is_some, ltb, arith}
use ai_firewall.Kernel.Maps.{live}
use ai_firewall.State.{expiry_for, remaining}

-- At any time of the clock, the daemon sees time left on a ban exactly when the kernel still drops
-- for it.
pub remaining-live : (now expiry : ℕ) → is_some (remaining now expiry) ≡ live now (some expiry)
unfolding remaining live
remaining-live now expiry = ground arith

-- A ban of `secs` seconds, above 0, entered at `start`, is in force from then on for that many
-- seconds and not longer, and the daemon's count of the seconds left starts at `secs` and never
-- rises above it. Assumed: the clock does not reach 2^64 ns.
pub expiry_for-live :
    (start secs now : ℕ)
    → 0 < secs
    → start + secs * 1_000_000_000 < 2 ^ 64
    → start ≤ now
    → let expiry = expiry_for start secs in
      (live now (some expiry) ≡ ltb now (start + secs * 1_000_000_000))
      × (remaining start expiry ≡ some secs)
      × ((left : ℕ) → remaining now expiry ≡ some left → left ≤ secs)
unfolding remaining live expiry_for
expiry_for-live start secs now pos t64 later =
    let e : (start + secs * 1_000_000_000 % 2 ^ 64) % 2 ^ 64 ≡ start + secs * 1_000_000_000 =
      omega arith in
    (ground arith, ground arith, λ left h. ground arith)
