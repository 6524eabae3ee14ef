-- ===== src/Daemon/Bans/Enact.antt =====
-- `enact` of ai-firewall/src/daemon.rs: the ban in the kernel's maps and in the daemon's records.
use ai_firewall.Prelude.{
  ℕ, ◌+◌, ◌*◌, ◌^◌, ◌≤◌, ◌<◌, ◌≡◌, refl, ◌∙◌, Bool-cases, Option-cases, inl, inr, true, some, List,
  get, insert, ltb, if◌then◌else◌, arith,
}
use ai_firewall.Prelude.MapLaws.{get-insert, beq_refl}
use ai_firewall.Text.{Text}
use ai_firewall.Addr.{Src, v4, v6, src_Eq, src_eq}
use ai_firewall.Kernel.Maps.{live}
use ai_firewall.Detector.Float.{Float32}
use ai_firewall.Detector.Observe.{Ban}
use ai_firewall.State.{expiry_for}
use ai_firewall.State.Expiry.{expiry_for-live}
use ai_firewall.State.Blocklist.{Blocklist, BanMap, BanMapLaws, lookup}
use ai_firewall.State.Blocklist
use ai_firewall.Daemon.{Shared}
use ai_firewall.Daemon.Bans.{enact, enter, auto_record}

pub lookup-insert :
    (k : BanMap) (laws : BanMapLaws k) (b b' : Blocklist) (src i : Src) (e : ℕ)
    → Blocklist.insert k b src e ≡ some b'
    → lookup b' i ≡ (if src_eq src i then some e else lookup b i)
unfolding Blocklist.insert lookup
lookup-insert k laws b b' (v4 ip) i e h = elim (Option-cases (k.map_insert b.v4_map ip e)) [
  | inl full ↦ absurd (ground arith)
  | inr (m, done) ↦
      let made : record b { v4_map = m } ≡ b' = ground arith in rw (← made) (in_v4 i m done)
]
  where
    in_v4 :
        (i : Src) (m : List (ℕ × ℕ))
        → k.map_insert b.v4_map ip e ≡ some m
        → lookup (record b { v4_map = m }) i ≡ (if src_eq (v4 ip) i then some e else lookup b i)
    in_v4 (v4 j) m done = laws.get-map_insert b.v4_map m ip e j done
    in_v4 (v6 j) m done = refl
lookup-insert k laws b b' (v6 p) i e h = elim (Option-cases b.v6_map) [
  | inl missing ↦ absurd (ground arith)
  | inr (old, there) ↦ elim (Option-cases (k.map_insert old p e)) [
    | inl full ↦ absurd (ground arith)
    | inr (m, done) ↦
        let made : record b { v6_map = some m } ≡ b' = ground arith in
        rw (← made) (in_v6 i old m there done)
  ]
]
  where
    in_v6 :
        (i : Src) (old m : List (ℕ × ℕ))
        → b.v6_map ≡ some old
        → k.map_insert old p e ≡ some m
        → lookup (record b { v6_map = some m }) i ≡ (if src_eq (v6 p) i then some e else lookup b i)
    in_v6 (v4 j) old m there done = refl
    in_v6 (v6 j) old m there done = rw there (laws.get-map_insert old m p e j done)

module _ (fl : Float32) (k : BanMap) where
  enact_entered :
      (show : Src → Text) (boot_ns unix : ℕ) (s : Shared fl) (ban : Ban fl) (b : Blocklist)
      → s.enforce ≡ true
      → Blocklist.insert k s.blocklist ban.ip (expiry_for boot_ns ban.secs) ≡ some b
      → let s' = enact fl k show boot_ns unix s ban in
        (s'.blocklist ≡ b) × (s'.records ≡ insert ban.ip (auto_record fl k ban) s.records)
  unfolding enact enter
  enact_entered show boot_ns unix s ban b on done = (rw (on, done), rw (on, done))

  -- When the daemon enforces, and the kernel's map takes the ban, a ban of `secs` seconds, above 0,
  -- is in force in the kernel from the moment it was entered for that many seconds and not longer;
  -- no other source's ban changes; and the daemon records the ban as automatic. Assumed: the
  -- insertion into the kernel's map does what it says, and the clock does not reach 2^64 ns.
  pub enact-live :
      (show : Src → Text) (boot_ns unix now : ℕ) (s : Shared fl) (ban : Ban fl) (b : Blocklist)
      (i : Src)
      → BanMapLaws k
      → s.enforce ≡ true
      → Blocklist.insert k s.blocklist ban.ip (expiry_for boot_ns ban.secs) ≡ some b
      → 0 < ban.secs
      → boot_ns + ban.secs * 1_000_000_000 < 2 ^ 64
      → boot_ns ≤ now
      → let s' = enact fl k show boot_ns unix s ban in
        (live now (lookup s'.blocklist i) ≡ (
          if src_eq ban.ip i
          then ltb now (boot_ns + ban.secs * 1_000_000_000)
          else live now (lookup s.blocklist i)))
        × (get ban.ip s'.records ≡ some (auto_record fl k ban))
  enact-live show boot_ns unix now s ban b i laws on done pos t64 later =
      let entered = enact_entered show boot_ns unix s ban b on done in
      let expiry : ℕ = expiry_for boot_ns ban.secs in
      let found = lookup-insert k laws s.blocklist b ban.ip i expiry done in
      let ends = expiry_for-live boot_ns ban.secs now pos t64 later in
      let records = get-insert ban.ip ban.ip (auto_record fl k ban) s.records in
      (
        elim (Bool-cases (src_eq ban.ip i)) [
          | inl same ↦ rw (entered.0, found, same) ends.0
          | inr other ↦ rw (entered.0, found, other)
        ],
        rw entered.1 (records ∙ rw (beq_refl ban.ip)),
      )
