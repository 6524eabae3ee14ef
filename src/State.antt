-- ===== src/State.antt =====
-- ai-firewall/src/state.rs: the lengths of bans in the kernel's clock, the ban maps and what is
-- saved of them. The clock (`net::boot_ns`) is an argument.
pub mod Blocklist
pub mod Entries
pub mod Expiry
use ai_firewall.Prelude.{
  ℕ, ◌+◌, ◌-◌, ◌*◌, ◌/◌, ◌%◌, ◌^◌, Option, none, some, List, [], ◌∷◌, map, get, unwrap_or, ltb,
  ◌==◌, if◌then◌else◌,
}
use ai_firewall.Text.{Text, codes}
use ai_firewall.Wire.{ban_forever}
use ai_firewall.Addr.{Src, src_Eq}
use ai_firewall.Detector.{Offender}
use ai_firewall.State.Blocklist.{entries}
use ai_firewall.State.Blocklist

-- The kernel's expiry for a ban of `secs` seconds, 0 for ever.
unfoldable pub expiry_for : ℕ → ℕ → ℕ
expiry_for boot_ns secs =
    if secs == 0 then ban_forever else (boot_ns + secs * 1_000_000_000 % 2 ^ 64) % 2 ^ 64

-- The seconds left, rounded up: none when the ban is over, 0 for one that never ends.
unfoldable pub remaining : ℕ → ℕ → Option ℕ
remaining boot_ns expiry =
    if expiry == ban_forever
    then some 0
    else if ltb boot_ns expiry
    then some ((expiry - boot_ns + 999_999_999) / 1_000_000_000)
    else none

pub record BanRecord : Type 0 where
  pub reason : Text
  pub source : Text
  pub strikes : ℕ

pub record SavedBan : Type 0 where
  pub ip : Src
  pub expires_unix : ℕ
  pub reason : Text
  pub source : Text
  pub strikes : ℕ

pub record SavedOffender : Type 0 where
  pub ip : Src
  pub strikes : ℕ
  pub last_ban_unix : ℕ

pub record Saved : Type 0 where
  pub bans : List SavedBan
  pub offenders : List SavedOffender

unfoldable pub manual_record : BanRecord
manual_record = record { reason = codes "banned by hand"; source = codes "manual"; strikes = 0 }

-- The entry of one ban; `boot_ns` is the clock when `remaining` reads it for this ban.
unfoldable pub saved_ban : ℕ → ℕ → List (Src × BanRecord) → Src × ℕ → Option SavedBan
saved_ban unix boot_ns records (ip, expiry) = elim (remaining boot_ns expiry) [
  | none ↦ none
  | some left ↦
      let rec = unwrap_or (get ip records) manual_record in
      some (record {
        ip = ip;
        expires_unix = if left == 0 then 0 else (unix + left) % 2 ^ 64;
        reason = rec.reason;
        source = rec.source;
        strikes = rec.strikes;
      })
]

saved_bans : ℕ → (Src → ℕ) → List (Src × BanRecord) → List (Src × ℕ) → List SavedBan
unfolding saved_ban
saved_bans unix clock records [] = []
saved_bans unix clock records (e ∷ es) =
    let rest = saved_bans unix clock records es in
    elim (saved_ban unix (clock e.0) records e) [ none ↦ rest | some b ↦ b ∷ rest ]

abbrev pub saved_offender : ℕ → ℕ → Src × Offender → SavedOffender
saved_offender unix boot (ip, o) = record {
  ip = ip;
  strikes = o.strikes;
  last_ban_unix = unix - (boot - o.last_ban);
}

-- `Saved::capture`, with the two clocks in seconds, and the clock that each ban is read at.
unfoldable pub capture :
    ℕ → ℕ → (Src → ℕ) → Blocklist.Blocklist → List (Src × BanRecord) → List (Src × Offender) → Saved
unfolding saved_bans
capture unix boot clock blocklist records offenders = record {
  bans = saved_bans unix clock records (entries blocklist);
  offenders = map (saved_offender unix boot) offenders;
}
