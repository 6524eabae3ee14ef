-- ===== src/Kernel/Policy/Flags.antt =====
-- The kernel's mask tests on TCP flags against the bits, and against the detector's tests
-- (ai-firewall-common/src/lib.rs) on the event that the kernel sends up.
use ai_firewall.Prelude.{ℕ, ◌<◌, ◌≡◌, refl, Bool, not, ◌&&◌, ◌||◌, ◌==◌, bit_and}
use ai_firewall.Prelude.Bits.{all_below, all_below_sound, iff_bool, iff_bool_eq}
use ai_firewall.Wire.{
  is_syn, is_null_scan, is_xmas_scan, is_fin_scan, proto_tcp, tcp_flag_fin, tcp_flag_ack,
}
use ai_firewall.Wire.Flags.{scan_flags, asks}
use ai_firewall.Kernel.Packet.{Flow, Source}
use ai_firewall.Kernel.Policy.{odd, opener, event_of}

pub odd-scan : (f : ℕ) → f < 256 → odd f ≡ scan_flags f
unfolding odd all_below
odd-scan f h =
    iff_bool_eq (odd f) (scan_flags f)
      (all_below_sound 256 (λ x. iff_bool (odd x) (scan_flags x)) f h refl)

pub opener-asks : (f : ℕ) → f < 256 → opener f ≡ asks f
unfolding opener all_below
opener-asks f h =
    iff_bool_eq (opener f) (asks f)
      (all_below_sound 256 (λ x. iff_bool (opener x) (asks x)) f h refl)

-- The detector's three tests, on the flags of a TCP event.
abbrev scan_tests : ℕ → Bool
scan_tests f =
    f == 0 || bit_and f 41 == 41 || not (bit_and f tcp_flag_fin == 0) && bit_and f tcp_flag_ack == 0

scan_tests-odd : (f : ℕ) → f < 256 → scan_tests f ≡ odd f
unfolding odd all_below
scan_tests-odd f h =
    iff_bool_eq (scan_tests f) (odd f)
      (all_below_sound 256 (λ x. iff_bool (scan_tests x) (odd x)) f h refl)

-- On the event that the kernel sends up for a TCP packet with a byte of flags, the detector's three
-- stealth-scan tests together hold exactly for the flags that the kernel drops as a scan, and
-- `is_syn` exactly for the flags that the kernel takes for a connection attempt.
pub detector_reads_flags :
    (src : Source) (flow : Flow) (allowed : Bool)
    → flow.proto ≡ proto_tcp
    → flow.tcp_flags < 256
    → let ev = event_of src flow allowed in
      ((is_null_scan ev || is_xmas_scan ev || is_fin_scan ev) ≡ odd flow.tcp_flags)
      × (is_syn ev ≡ opener flow.tcp_flags)
unfolding is_syn is_fin_scan is_null_scan is_xmas_scan opener event_of
detector_reads_flags src flow allowed tcp h = (rw tcp (scan_tests-odd flow.tcp_flags h), refl)
