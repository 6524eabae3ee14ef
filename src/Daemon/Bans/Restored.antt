-- ===== src/Daemon/Bans/Restored.antt =====
-- An offender across a restart: `Saved::capture` of ai-firewall/src/state.rs, then `restore` of
-- ai-firewall/src/daemon.rs with clocks that may have started again.
use ai_firewall.Prelude.{
  ℕ, ◌+◌, ◌-◌, ◌^◌, ◌%◌, ◌≤◌, min, ◌≡◌, refl, some, ltb, if◌then◌else◌, arith,
}
use ai_firewall.Addr.{Src}
use ai_firewall.Detector.{Offender, BanConfig}
use ai_firewall.Detector.Observe.{strike}
use ai_firewall.Detector.Float.{Float32}
use ai_firewall.State.{saved_offender}
use ai_firewall.State.Blocklist.{BanMap}
use ai_firewall.Daemon.Bans.{restored_offender}

module _ (fl : Float32) (k : BanMap) where
  -- An offender across a restart. What counts as its quiet time when it is restored is the time since
  -- its last ban, that while the machine was off included, but no more than the age of the new boot:
  -- quiet time from before a reboot is cut to that. Its strikes stay; a ban some seconds after the
  -- restart finds them forgiven exactly when the quiet time so cut and those seconds are more than
  -- `forgive_secs`, and counts one up. Assumed: no clock runs backwards.
  pub restored_offender-quiet :
      (ip : Src) (o : Offender) (unix boot unix' boot' : ℕ) (bans : BanConfig) (wait : ℕ)
      → o.last_ban ≤ boot
      → boot - o.last_ban ≤ unix
      → unix ≤ unix'
      → let o' = restored_offender fl k unix' boot' (saved_offender unix boot (ip, o)) in
        let quiet = min boot' (boot - o.last_ban + (unix' - unix)) in
        (o'.strikes ≡ o.strikes)
        × (boot' - o'.last_ban ≡ quiet)
        × ((strike bans (some o') (boot' + wait)).strikes
            ≡ ((if ltb bans.forgive_secs (quiet + wait) then 0 else o.strikes) + 1) % 2 ^ 32)
  unfolding strike
  restored_offender-quiet ip o unix boot unix' boot' bans wait h j l =
      let o' = restored_offender fl k unix' boot' (saved_offender unix boot (ip, o)) in
      let quiet = min boot' (boot - o.last_ban + (unix' - unix)) in
      let counted : boot' + wait - o'.last_ban ≡ quiet + wait = omega arith in
      (refl, omega arith, rw counted refl)
