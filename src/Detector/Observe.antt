-- ===== src/Detector/Observe.antt =====
-- ai-firewall/src/detector.rs: `observe` and `escalate`, over any f32 arithmetic.
use ai_firewall.Prelude.{
  ℕ, ◌+◌, ◌-◌, ◌%◌, ◌^◌, min, not, ◌&&◌, Option, none, some, List, [], ◌∷◌, length, get,
  contains_key, insert, remove, unwrap_or, ltb, leb, if◌then◌else◌,
}
use ai_firewall.Text.{codes}
use ai_firewall.Wire.{PacketEvent}
use ai_firewall.Addr.{Src, src_Eq, of}
use ai_firewall.Detector.Float.{Float32}
use ai_firewall.Detector.{
  Detector, DetectorConfig, BanConfig, Track, Offender, max_tracked, is_protected, prune, in_window,
  update_track, describe_ports, bump32, saturating_mul,
}

-- The offender's record after this ban: its strikes are forgiven after a quiet time.
unfoldable pub strike : BanConfig → Option Offender → ℕ → Offender
strike bans known now =
    let o = unwrap_or known (record { strikes = 0; last_ban = now }) in
    let strikes = if ltb bans.forgive_secs (now - o.last_ban) then 0 else o.strikes in
    record { strikes = bump32 strikes; last_ban = now }

-- The length of a ban; the strikes are those after this one, a u32.
unfoldable pub ban_secs : BanConfig → ℕ → ℕ
ban_secs bans strikes =
    let shift = min ((strikes + 2 ^ 32 - 1) % 2 ^ 32) 20 in
    min (saturating_mul bans.base_secs (2 ^ shift)) bans.max_secs

module _ (fl : Float32) where
  open fl use {F, of_nat, sum_start, add, sub, div, lt, total_gt}

  pub record Ban : Type 0 where
    pub ip : Src
    pub secs : ℕ
    pub strikes : ℕ
    pub score : F
    pub reason : List ℕ
    pub ports : List ℕ

  -- `a as f32 / b as f32`
  abbrev pub ratio : ℕ → ℕ → F
  ratio a b = div (of_nat a) (of_nat b)

  -- The five signals; the limit of stealth-scan packets is the constant ODD_LIMIT.
  unfoldable pub signals : DetectorConfig → Track → List (F × List ℕ)
  signals cfg t =
      (ratio t.syn cfg.syn_limit, codes "connection flood")
      ∷ (ratio (length t.ports) cfg.port_limit, codes "port scan")
      ∷ (ratio t.udp cfg.udp_limit, codes "udp flood")
      ∷ (ratio t.drops cfg.drop_limit, codes "probing closed ports")
      ∷ (ratio t.odd 3, codes "stealth scan")
      ∷ []

  sum : F → List (F × List ℕ) → F
  sum acc [] = acc
  sum acc (s ∷ ss) = sum (add acc s.0) ss

  unfoldable pub score : DetectorConfig → Track → F
  unfolding sum
  score cfg t = sub (sum sum_start (signals cfg t)) (ratio 1 cfg.port_limit)

  -- `max_by` keeps the last of equal greatest elements.
  greatest : F × List ℕ → List (F × List ℕ) → List ℕ
  greatest best [] = best.1
  greatest best (s ∷ ss) = greatest (if total_gt best.0 s.0 then best else s) ss

  reason_of : List (F × List ℕ) → List ℕ
  unfolding greatest
  reason_of [] = codes "anomaly"
  reason_of (s ∷ ss) = greatest s ss

  unfoldable pub escalate : Detector → Src → F → List ℕ → List ℕ → ℕ → Detector × Ban
  escalate d ip score reason ports now =
      let o = strike d.bans (get ip d.offenders) now in
      (
        record d { offenders = insert ip o d.offenders },
        record {
          ip = ip;
          secs = ban_secs d.bans o.strikes;
          strikes = o.strikes;
          score = score;
          reason = reason;
          ports = ports;
        },
      )

  -- The score of the source's track, once the event is counted.
  unfoldable pub judge : Detector → Src → Track → ℕ → Detector × Option Ban
  unfolding escalate reason_of
  judge d ip t now =
      let d' = record d { tracks = insert ip t d.tracks } in
      if lt (score d.cfg t) (of_nat 1)
      then (d', none)
      else (let (banned, ban) =
            escalate (record d' { tracks = remove ip d'.tracks }) ip (score d.cfg t)
              (reason_of (signals d.cfg t)) (describe_ports t) now in
          (banned, some ban))

  unfoldable pub count_event : Detector → Src → PacketEvent → ℕ → Detector × Option Ban
  unfolding judge
  count_event d ip ev now =
      judge d ip (update_track d.cfg ev (in_window d.cfg (get ip d.tracks) now)) now

  -- Feed one event: the new detector, and a ban when the source's score reaches 1.
  unfoldable pub observe : Detector → PacketEvent → ℕ → Detector × Option Ban
  unfolding count_event
  observe d ev now =
      let ip = of ev in
      let full = leb max_tracked (length d.tracks) && not (contains_key ip d.tracks) in
      let pruned = prune d now in
      if is_protected d ip
      then (d, none)
      else if full
      then (if leb max_tracked (length pruned.tracks)
          then (pruned, none)
          else count_event pruned ip ev now)
      else count_event d ip ev now

  abbrev pub after : Option Ban → List Ban → List Ban
  after none bans = bans
  after (some ban) bans = ban ∷ bans

  -- `observe` over a sequence of events with their times; the bans, the oldest first.
  unfoldable pub observe_all : Detector → List (PacketEvent × ℕ) → Detector × List Ban
  observe_all d [] = (d, [])
  observe_all d ((ev, now) ∷ evs) =
      let (d', ban) = observe d ev now in
      let (d'', bans) = observe_all d' evs in (d'', after ban bans)
