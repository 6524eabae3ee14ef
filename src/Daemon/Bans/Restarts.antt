-- ===== src/Daemon/Bans/Restarts.antt =====
-- A ban across restarts: `Saved::capture` of ai-firewall/src/state.rs before each, and `restore` of
-- ai-firewall/src/daemon.rs after it. Times are ns of the wall clock, which `unix_secs` cuts to
-- seconds; the kernel's clock starts again when the machine boots.
pub mod Moved
use ai_firewall.Prelude.{
  ℕ, suc, ◌+◌, ◌-◌, ◌*◌, ◌/◌, ◌%◌, ◌^◌, ◌≤◌, ◌<◌, ◌≡◌, refl, ◌∙◌, false, Bool-cases, Option-cases,
  inl, inr, Option, none, some, List, [], ◌∷◌, length, get, unwrap_or, ltb, ◌==◌, if◌then◌else◌,
  arith,
}
use ai_firewall.Prelude.MapLaws.{beq_refl}
use ai_firewall.Addr.{Src, src_Eq}
use ai_firewall.Detector.Float.{Float32}
use ai_firewall.Kernel.Maps.{live}
use ai_firewall.State.{BanRecord, SavedBan, saved_ban, remaining, expiry_for, manual_record}
use ai_firewall.State.Blocklist.{Blocklist, BanMap, BanMapLaws, lookup}
use ai_firewall.State.Blocklist
use ai_firewall.Daemon.{Shared}
use ai_firewall.Daemon.Bans.{saved_secs, restore_ban, put_back}
use ai_firewall.Daemon.Bans.Enact.{lookup-insert}
use ai_firewall.Daemon.Bans.Restarts.Moved.{and_then, Near, carried-Near}

module _ (fl : Float32) (k : BanMap) where
  -- The bans are saved at one time, the machine boots, and they are restored on what the daemon has
  -- by then.
  pub record Restart : Type 0 where
    pub saved_at : ℕ
    pub booted_at : ℕ
    pub restored_at : ℕ
    pub host : Shared fl

  -- The expiry in the kernel's map after a restart, of a ban with one in the boot before.
  unfoldable pub carried : Src → List (Src × BanRecord) → ℕ → ℕ → Restart → Option ℕ
  unfolding restore_ban
  carried ip records booted expiry r =
      elim (saved_ban (r.saved_at / 1_000_000_000) (r.saved_at - booted) records (ip, expiry)) [
        | none ↦ none
        | some b ↦
            lookup
              (restore_ban fl k (r.restored_at / 1_000_000_000) (r.restored_at - r.booted_at) r.host
                b).blocklist
              ip
      ]

  -- The start of the last boot, and the expiry in it.
  unfoldable pub carry_all : Src → List (Src × BanRecord) → ℕ → ℕ → List Restart → Option (ℕ × ℕ)
  unfolding carried
  carry_all ip records booted expiry [] = some (booted, expiry)
  carry_all ip records booted expiry (r ∷ rs) = elim (carried ip records booted expiry r) [
    | none ↦ none
    | some e ↦ carry_all ip records r.booted_at e rs
  ]

  -- The ban map of the new boot does not have the source, and takes it.
  pub record TakesBan (ip : Src) (b : Blocklist) : Type 0 where
    pub absent : lookup b ip ≡ none
    pub takes : (e : ℕ) → (b' : Blocklist) × (Blocklist.insert k b ip e ≡ some b')

  -- The restarts from a time on, up to another: each saves, boots and restores, in this order.
  abbrev pub InOrder : Src → ℕ → List Restart → ℕ → Type 0
  InOrder ip from [] until = from ≤ until
  InOrder ip from (r ∷ rs) until =
      (from ≤ r.saved_at)
      × (r.saved_at ≤ r.booted_at)
      × (r.booted_at ≤ r.restored_at)
      × TakesBan ip r.host.blocklist
      × InOrder ip r.restored_at rs until

  restore_ban-lookup :
      (laws : BanMapLaws k) (unix boot_ns : ℕ) (s : Shared fl) (b : SavedBan)
      → TakesBan b.ip s.blocklist
      → lookup (restore_ban fl k unix boot_ns s b).blocklist b.ip
        ≡ elim (saved_secs fl k unix b.expires_unix) [
          | none ↦ none
          | some secs ↦ some (expiry_for boot_ns secs)
        ]
  unfolding restore_ban put_back Blocklist.contains
  restore_ban-lookup laws unix boot_ns s b room =
      elim (Option-cases (saved_secs fl k unix b.expires_unix)) [
        | inl over ↦ rw (over, restore_ban) room.absent
        | inr (secs, left) ↦
            let expiry = expiry_for boot_ns secs in
            let (m, done) = room.takes expiry in
            let found = lookup-insert k laws s.blocklist m b.ip b.ip expiry done in
            rw (left, restore_ban, room.absent, done) (found ∙ rw (beq_refl b.ip) refl)
      ]

  -- In the seconds that are left when the ban is saved.
  carried-left :
      (laws : BanMapLaws k) (ip : Src) (records : List (Src × BanRecord)) (booted expiry : ℕ)
      (r : Restart)
      → TakesBan ip r.host.blocklist
      → carried ip records booted expiry r
        ≡ and_then fl k r.saved_at r.restored_at r.booted_at
            (remaining (r.saved_at - booted) expiry)
  unfolding carried saved_ban
  carried-left laws ip records booted expiry r room =
      elim (Option-cases (remaining (r.saved_at - booted) expiry)) [
        | inl over ↦ rw (carried, over) refl
        | inr (left, some_left) ↦
            let rec = unwrap_or (get ip records) manual_record in
            let saved : SavedBan = record {
              ip = ip;
              expires_unix = if left == 0 then 0 else (r.saved_at / 1_000_000_000 + left) % 2 ^ 64;
              reason = rec.reason;
              source = rec.source;
              strikes = rec.strikes;
            } in
            rw (carried, some_left)
              (restore_ban-lookup laws (r.restored_at / 1_000_000_000) (r.restored_at - r.booted_at)
                r.host saved room)
      ]

  InOrder-le :
      (ip : Src) (from : ℕ) (rs : List Restart) (until : ℕ)
      → InOrder ip from rs until
      → from ≤ until
  InOrder-le ip from [] until h = h
  InOrder-le ip from (r ∷ rs) until (a, b, c, room, rest) =
      let more = InOrder-le ip r.restored_at rs until rest in omega arith

  -- The ban is over, before its end by a second for each restart at the most; or its end has moved
  -- by no more than a second to the front and two to the back for each, and the kernel drops for it
  -- up to there.
  abbrev pub Ends : ℕ → ℕ → ℕ → Option (ℕ × ℕ) → Type 0
  Ends end restarts until none = end ≤ until + restarts * 1_000_000_000
  Ends end restarts until (some (booted, expiry)) =
      (end ≤ booted + expiry + restarts * 1_000_000_000)
      × (booted + expiry ≤ end + restarts * 2_000_000_000)
      × ((now : ℕ) → live now (some expiry) ≡ ltb (booted + now) (booted + expiry))

  one_more_restart :
      (end end' n until : ℕ) (o : Option (ℕ × ℕ))
      → end ≤ end' + 1_000_000_000
      → end' ≤ end + 2_000_000_000
      → Ends end' n until o
      → Ends end (suc n) until o
  one_more_restart end end' n until none h k ends = omega arith
  one_more_restart end end' n until (some (booted, expiry)) h k (front, back, drops) =
      (omega arith, omega arith, drops)

  carry_all-Ends :
      (laws : BanMapLaws k) (ip : Src) (records : List (Src × BanRecord)) (booted expiry from : ℕ)
      (rs : List Restart) (until : ℕ)
      → 0 < expiry
      → booted ≤ from
      → InOrder ip from rs until
      → booted + expiry + length rs * 2_000_000_000 < 2 ^ 64
      → Ends (booted + expiry) (length rs) until (carry_all ip records booted expiry rs)
  unfolding carry_all live
  carry_all-Ends laws ip records booted expiry from [] until pos h order room =
      (omega arith, omega arith, λ now. ground arith)
  carry_all-Ends laws ip records booted expiry from (r ∷ rs) until pos h (a, b, c, takes, rest)
        room =
      let near : Near (booted + expiry) r.restored_at r.booted_at
          (carried ip records booted expiry r) =
        rw (carried-left laws ip records booted expiry r takes) (
          carried-Near fl k booted expiry r.saved_at r.booted_at r.restored_at pos (omega arith) b c
            (omega arith)) in
      elim (Option-cases (carried ip records booted expiry r)) [
        | inl over ↦
            let early : booted + expiry ≤ r.restored_at + 1_000_000_000 = rw over at near in
            let until_then = InOrder-le ip r.restored_at rs until rest in
            rw (carry_all, over) (omega arith)
        | inr (e, goes_on) ↦
            let (pos', front, back) = rw goes_on at near in
            let ih =
              carry_all-Ends laws ip records r.booted_at e r.restored_at rs until pos' c rest
                (omega arith) in
            rw (carry_all, goes_on)
              (one_more_restart (booted + expiry) (r.booted_at + e) (length rs) until _ front back
                ih)
      ]

  carried_forever :
      (laws : BanMapLaws k) (ip : Src) (records : List (Src × BanRecord)) (booted : ℕ) (r : Restart)
      → TakesBan ip r.host.blocklist
      → carried ip records booted 0 r ≡ some 0
  unfolding remaining saved_secs expiry_for
  carried_forever laws ip records booted r takes = carried-left laws ip records booted 0 r takes

  carry_all_forever :
      (laws : BanMapLaws k) (ip : Src) (records : List (Src × BanRecord)) (booted from : ℕ)
      (rs : List Restart) (until : ℕ)
      → InOrder ip from rs until
      → (booted' : ℕ) × (carry_all ip records booted 0 rs ≡ some (booted', 0))
  unfolding carry_all
  carry_all_forever laws ip records booted from [] until order = (booted, refl)
  carry_all_forever laws ip records booted from (r ∷ rs) until (a, b, c, takes, rest) =
      let (last, kept) =
        carry_all_forever laws ip records r.booted_at r.restored_at rs until rest in
      (last, rw (carry_all, carried_forever laws ip records booted r takes) kept)

  -- A ban of a source goes through any number of restarts, at each of which the bans are saved, the
  -- machine boots and the bans are restored into maps that take the source. A ban that was to end at
  -- a time of the wall clock is over after them a second early for each restart at the most, or it
  -- still has an end, a second earlier or two seconds later for each restart at the most, and the
  -- kernel drops for it up to there. A ban for ever stays one. Assumed: the clocks run alike, a
  -- save and a restore read theirs at one time, and their ns do not overflow.
  pub restarts_keep_ban :
      (laws : BanMapLaws k) (ip : Src) (records : List (Src × BanRecord)) (booted expiry from : ℕ)
      (rs : List Restart) (until : ℕ)
      → 0 < expiry
      → booted ≤ from
      → InOrder ip from rs until
      → booted + expiry + length rs * 2_000_000_000 < 2 ^ 64
      → Ends (booted + expiry) (length rs) until (carry_all ip records booted expiry rs)
        × ((booted' : ℕ) × (carry_all ip records booted 0 rs ≡ some (booted', 0)))
  restarts_keep_ban laws ip records booted expiry from rs until pos h order room = (
    carry_all-Ends laws ip records booted expiry from rs until pos h order room,
    carry_all_forever laws ip records booted from rs until order,
  )
