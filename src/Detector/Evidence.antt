-- ===== src/Detector/Evidence.antt =====
-- ai-firewall/src/detector.rs: the score of a source before and after an event.
use ai_firewall.Prelude.{ℕ, ◌+◌, ◌^◌, ◌≤◌, ◌<◌, ◌≡◌, true, [], ◌∷◌, length, length-append, arith}
use ai_firewall.Wire.{PacketEvent}
use ai_firewall.Detector.{DetectorConfig, Track, update_track}
use ai_firewall.Detector.Float.{Float32, Laws}
use ai_firewall.Detector.Observe.{ratio, signals, score}

-- The first track holds no more evidence than the second.
pub record NoMore (t u : Track) : Type 0 where
  pub syns : t.syn ≤ u.syn
  pub udps : t.udp ≤ u.udp
  pub drop_count : t.drops ≤ u.drops
  pub odds : t.odd ≤ u.odd
  pub port_count : length t.ports ≤ length u.ports

-- No counter of the track is about to wrap.
pub record Small (t : Track) : Type 0 where
  pub syns : t.syn + 1 < 2 ^ 32
  pub udps : t.udp + 1 < 2 ^ 32
  pub drop_count : t.drops + 1 < 2 ^ 32
  pub odds : t.odd + 1 < 2 ^ 32

-- The limits that `Config::validate` asks to be above 0.
pub record Limits (cfg : DetectorConfig) : Type 0 where
  pub syns : 0 < cfg.syn_limit
  pub port_count : 0 < cfg.port_limit
  pub udps : 0 < cfg.udp_limit
  pub drop_count : 0 < cfg.drop_limit

update_track-NoMore :
    (cfg : DetectorConfig) (ev : PacketEvent) (t : Track)
    → Small t
    → NoMore t (update_track cfg ev t)
unfolding update_track
update_track-NoMore cfg ev t s = record {
  syns = ground arith;
  udps = ground arith;
  drop_count = ground arith;
  odds = ground arith;
  port_count = ground (arith, length-append t.ports (ev.dst_port ∷ []));
}

module _ (fl : Float32) (laws : Laws fl) where
  open laws use {Le, le_refl, of_nat_mono, add_mono, sub_mono, div_mono, lt_of_le}

  ratio_mono : (a b n : ℕ) → 0 < n → a ≤ b → Le (ratio fl a n) (ratio fl b n)
  ratio_mono a b n pos h = div_mono _ _ n pos (of_nat_mono a b h)

  score_mono :
      (cfg : DetectorConfig) (t u : Track)
      → Limits cfg
      → NoMore t u
      → Le (score fl cfg t) (score fl cfg u)
  unfolding score signals
  score_mono cfg t u l h = sub_mono _ _ _ (
      add_mono _ _ _ _
        (add_mono _ _ _ _
          (add_mono _ _ _ _
            (add_mono _ _ _ _
              (add_mono _ _ _ _ (le_refl _) (ratio_mono t.syn u.syn cfg.syn_limit l.syns h.syns))
              (ratio_mono _ _ cfg.port_limit l.port_count h.port_count))
            (ratio_mono t.udp u.udp cfg.udp_limit l.udps h.udps))
          (ratio_mono t.drops u.drops cfg.drop_limit l.drop_count h.drop_count))
        (ratio_mono t.odd u.odd 3 (omega arith) h.odds))

  -- Counting an event never takes a source back under the threshold: if the score after the event
  -- is below 1, it was below 1 before. Assumed: limits above 0, counters that do not wrap, and
  -- f32 arithmetic that rounds monotonically.
  pub score-update_track :
      (cfg : DetectorConfig) (ev : PacketEvent) (t : Track)
      → Limits cfg
      → Small t
      → fl.lt (score fl cfg (update_track cfg ev t)) (fl.of_nat 1) ≡ true
      → fl.lt (score fl cfg t) (fl.of_nat 1) ≡ true
  score-update_track cfg ev t l s below =
      lt_of_le _ _ _ (score_mono cfg t (update_track cfg ev t) l (update_track-NoMore cfg ev t s))
        below
