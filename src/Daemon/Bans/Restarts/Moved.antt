-- ===== src/Daemon/Bans/Restarts/Moved.antt =====
-- How far one save and one restore move the end of a ban: `remaining` and `expiry_for` of
-- ai-firewall/src/state.rs, and the seconds that `restore` of ai-firewall/src/daemon.rs takes.
use ai_firewall.Prelude.{
  ℕ, ◌+◌, ◌-◌, ◌*◌, ◌/◌, ◌%◌, ◌^◌, ◌≤◌, ◌<◌, ◌≡◌, refl, false, Bool-cases, inl, inr, Option, none,
  some, ltb, ◌==◌, if◌then◌else◌, arith,
}
use ai_firewall.Addr.{src_Eq}
use ai_firewall.Detector.Float.{Float32}
use ai_firewall.State.{remaining, expiry_for}
use ai_firewall.State.Blocklist.{BanMap}
use ai_firewall.Daemon.Bans.{saved_secs}

-- The expiry in the new boot's clock, of a ban with so many seconds left when it was saved.
abbrev pub and_then : Float32 → BanMap → ℕ → ℕ → ℕ → Option ℕ → Option ℕ
and_then fl k saved_at restored_at booted_at none = none
and_then fl k saved_at restored_at booted_at (some left) =
    elim (saved_secs fl k (restored_at / 1_000_000_000)
      (if left == 0 then 0 else (saved_at / 1_000_000_000 + left) % 2 ^ 64)) [
        | none ↦ none
        | some secs ↦ some (expiry_for (restored_at - booted_at) secs)
      ]

-- The ban is over, at a time of the wall clock, a second early at the most; or it still ends within a
-- second before and two seconds behind its end.
abbrev pub Near : ℕ → ℕ → ℕ → Option ℕ → Type 0
Near end restored_at booted_at none = end ≤ restored_at + 1_000_000_000
Near end restored_at booted_at (some e) =
    (0 < e) × (end ≤ booted_at + e + 1_000_000_000) × (booted_at + e ≤ end + 2 * 1_000_000_000)

module _ (fl : Float32) (k : BanMap) where
  restored-Near :
      (end saved_at booted_at restored_at left : ℕ)
      → saved_at < end
      → left ≡ (end - saved_at + 999_999_999) / 1_000_000_000
      → saved_at ≤ booted_at
      → booted_at ≤ restored_at
      → end + 2 * 1_000_000_000 < 2 ^ 64
      → Near end restored_at booted_at (and_then fl k saved_at restored_at booted_at (some left))
  unfolding saved_secs expiry_for
  restored-Near end saved_at booted_at restored_at left lt is h1 h2 room =
      let positive : (left == 0) ≡ false = ground arith in
      let expires = saved_at / 1_000_000_000 + left in
      let small : expires < 2 ^ 64 = omega arith in
      let same : expires % 2 ^ 64 ≡ expires = omega arith in
      let some_end : (expires == 0) ≡ false = ground arith in
      elim (Bool-cases (ltb (restored_at / 1_000_000_000) expires)) [
        | inl ahead ↦
            let secs = expires - restored_at / 1_000_000_000 in
            let later : restored_at / 1_000_000_000 < expires = ground arith in
            let upper : restored_at + secs * 1_000_000_000 ≤ end + 2 * 1_000_000_000 =
              omega arith in
            let lower : end ≤ restored_at + secs * 1_000_000_000 + 1_000_000_000 = omega arith in
            let some_secs : (secs == 0) ≡ false = ground arith in
            let within : secs * 1_000_000_000 % 2 ^ 64 ≡ secs * 1_000_000_000 = omega arith in
            let plain : expiry_for (restored_at - booted_at) secs
                ≡ restored_at - booted_at + secs * 1_000_000_000 =
              rw (expiry_for, some_secs, within) (omega arith) in
            rw (and_then, saved_secs, positive, same, some_end, ahead)
              (rw plain (omega arith, omega arith, omega arith))
        | inr past ↦
            let earlier : expires ≤ restored_at / 1_000_000_000 = ground arith in
            rw (and_then, saved_secs, positive, same, some_end, past) (omega arith)
      ]

  pub carried-Near :
      (booted expiry saved_at booted_at restored_at : ℕ)
      → 0 < expiry
      → booted ≤ saved_at
      → saved_at ≤ booted_at
      → booted_at ≤ restored_at
      → booted + expiry + 2 * 1_000_000_000 < 2 ^ 64
      → Near
          (booted + expiry)
          restored_at
          booted_at
          (and_then fl k saved_at restored_at booted_at (remaining (saved_at - booted) expiry))
  unfolding remaining
  carried-Near booted expiry saved_at booted_at restored_at pos h0 h1 h2 room =
      let limited : (expiry == 0) ≡ false = ground arith in
      elim (Bool-cases (ltb (saved_at - booted) expiry)) [
        | inl ahead ↦
            let same : expiry - (saved_at - booted) ≡ booted + expiry - saved_at = omega arith in
            let left = (expiry - (saved_at - booted) + 999_999_999) / 1_000_000_000 in
            rw (remaining, limited, ahead)
              (restored-Near (booted + expiry) saved_at booted_at restored_at left (ground arith)
                (rw same refl) h1 h2 room)
        | inr over ↦ rw (remaining, limited, over) (ground arith)
      ]
