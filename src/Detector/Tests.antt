-- ===== src/Detector/Tests.antt =====
-- The theorems on ai-firewall/src/detector.rs at concrete events, with thousandths for the f32.
use native.Mathlib.Nat.{le-div_iff_mul-le, div-mul-le_self}
use ai_firewall.Prelude.{
  ℕ, ◌+◌, ◌-◌, ◌*◌, ◌/◌, ◌≤◌, ◌<◌, ◌≡◌, refl, false, none, some, [], ◌∷◌, length, ltb, arith, get,
}
use ai_firewall.Text.{codes, print_uint}
use ai_firewall.Wire.{PacketEvent, is_null_scan, is_xmas_scan, is_fin_scan, is_syn}
use ai_firewall.Addr.{v4, src_Eq, of}
use ai_firewall.Detector.Float.{Float32, Laws}
use ai_firewall.Detector.{
  Detector, DetectorConfig, BanConfig, max_tracked, is_protected, update_track, in_window,
  describe_ports,
}
use ai_firewall.Detector.Observe.{Ban, signals, observe, observe_all, strike, ban_secs, score}
use ai_firewall.Detector.Bounds.{All, observe-bounded, observe_ban, observe_all-unprotected}
use ai_firewall.Detector.Escalation.{struck, repeat_offender}

abbrev pub thousandths : Float32
thousandths = record {
  F = ℕ;
  of_nat = λ n. n * 1000;
  sum_start = 0;
  add = ◌+◌;
  sub = ◌-◌;
  div = λ a b. a * 1000 / b;
  lt = ltb;
  total_gt = λ a b. ltb b a;
}

div_mono : (a b k : ℕ) → 0 < k → a ≤ b → a / k ≤ b / k
div_mono a b k pos h = (le-div_iff_mul-le pos).1 (omega (arith, div-mul-le_self a k))

abbrev thousandths_laws : Laws thousandths
thousandths_laws = record {
  Le = ◌≤◌;
  le_refl = λ a. omega arith;
  of_nat_mono = λ a b h. omega arith;
  add_mono = λ a b c d h k. omega arith;
  sub_mono = λ a b c h. omega arith;
  div_mono = λ a b n pos h. div_mono (a * 1000) (b * 1000) (n * 1000) (omega arith) (omega arith);
  lt_of_le = λ a b c h k. ground arith;
}

abbrev settings : DetectorConfig
settings = record {
  window_secs = 10;
  syn_limit = 1;
  port_limit = 10;
  udp_limit = 50;
  drop_limit = 20;
}

abbrev bans : BanConfig
bans = record { base_secs = 600; max_secs = 86400; forgive_secs = 604800 }

abbrev pub fresh : Detector
fresh = record {
  cfg = settings;
  bans = bans;
  protected = [];
  protected6 = [];
  tracks = [];
  offenders = [];
}

-- A refused connection attempt from 9.9.9.9 to port 23.
abbrev pub attempt : PacketEvent
attempt = record {
  src6 = 0;
  src_ip = 0x09090909;
  dst_port = 23;
  src_port = 4000;
  protocol = 6;
  tcp_flags = 2;
  payload_len = 0;
  verdict = 1;
  family = 4;
}

-- The ban that this attempt brings.
abbrev pub the_ban : Ban thousandths
the_ban = record {
  ip = v4 0x09090909;
  secs = 600;
  strikes = 1;
  score = 1050;
  reason = codes "connection flood";
  ports = codes "tcp 23";
}

attempt_banned : (observe thousandths fresh attempt 100).1 ≡ some the_ban
unfolding observe is_protected of score signals update_track is_null_scan is_xmas_scan is_fin_scan
    is_syn in_window ban_secs strike describe_ports print_uint
attempt_banned = refl

observe_ban_example :
    let d' = (observe thousandths fresh attempt 100).0 in
    (v4 0x09090909 ≡ of attempt)
    × (is_protected fresh (of attempt) ≡ false)
    × (600 ≡ ban_secs bans 1)
    × (get (of attempt) d'.offenders ≡ some (record { strikes = 1; last_ban = 100 }))
    × (get (of attempt) d'.tracks ≡ none)
observe_ban_example = observe_ban thousandths fresh attempt 100 the_ban attempt_banned

observe-bounded_example : length (observe thousandths fresh attempt 100).0.tracks ≤ max_tracked
observe-bounded_example = observe-bounded thousandths fresh attempt 100 (omega arith)

observe_all-unprotected_example :
    All
      (λ (ban : Ban thousandths). is_protected fresh ban.ip ≡ false)
      (observe_all thousandths fresh ((attempt, 100) ∷ (attempt, 101) ∷ [])).1
observe_all-unprotected_example =
    observe_all-unprotected thousandths fresh ((attempt, 100) ∷ (attempt, 101) ∷ [])

repeat_offender_example :
    let o = struck bans (strike bans none 100) (200 ∷ 300 ∷ []) in
    (o.strikes ≡ 3) × (ban_secs bans o.strikes ≡ 2400)
repeat_offender_example =
    repeat_offender bans 100 (200 ∷ 300 ∷ []) (omega arith, omega arith, omega arith)
      (omega arith, (omega arith, tt)) (omega arith)
