-- ===== src/Config/Ports/Rates.antt =====
-- `Rule::rate` (ai-firewall/src/config.rs): what limits are accepted, and what they are read as.
use mathlib.Core.List.{reverse-append, reverse-reverse}
use ai_firewall.Prelude.{
  ℕ, ◌*◌, ◌%◌, ◌^◌, ◌≤◌, ◌<◌, ◌≡◌, refl, ◌∙◌, true, ◌||◌, Option, none, some, [], ◌∷◌, ◌++◌, ltb,
  ◌==◌, if◌then◌else◌, arith, Option-cases, inl, inr,
}
use ai_firewall.Text.{Text, trim, split_once, parse_uint, print_uint}
use ai_firewall.Text.Bounds.{parse_uint-le}
use ai_firewall.Text.Decimal.{parse_uint-print_uint, print_uint-AllDigits, print_uint-append}
use ai_firewall.Text.Trim.{
  trim-print_uint, trim-Solid, AllDigits-Solid, append-Solid, split_once-print_uint,
}
use ai_firewall.Config.Cidr.{u16_max, u32_max}
use ai_firewall.Config.Ports.{Rule, window_of, check_rate, rate_of, rate}

check_rate_bounds :
    (a b : Option ℕ) (mult n secs : ℕ)
    → ((m : ℕ) → a ≡ some m → m ≤ u16_max)
    → check_rate a b mult ≡ some (some (n, secs))
    → (0 < n) × (n ≤ 65535) × (0 < secs) × (secs ≤ 3600)
unfolding check_rate
check_rate_bounds none b mult n secs le h = cc
check_rate_bounds (some m) none mult n secs le h = cc
check_rate_bounds (some m) (some num) mult n secs le h = ground (arith, le m refl)

rate_of_bounds :
    (limit : Option Text) (n secs : ℕ)
    → rate_of limit ≡ some (some (n, secs))
    → (0 < n) × (n ≤ 65535) × (0 < secs) × (secs ≤ 3600)
unfolding rate_of
rate_of_bounds none n secs h = cc
rate_of_bounds (some l) n secs h = elim (Option-cases (split_once b'/' l)) [
  | inl bad ↦ absurd (ground arith)
  | inr ((a, w), cut) ↦
      let (num, mult) = window_of (trim w) in
      check_rate_bounds (parse_uint u16_max (trim a)) (parse_uint u32_max (trim num)) mult n secs
        (λ m. parse_uint-le u16_max m (trim a)) (rw (cut, rate_of) at h)
]

-- A limit that `Rule::rate` accepts has a count from 1 to 65535 and a window from 1 to 3600 seconds.
pub rate_bounds :
    (r : Rule) (n secs : ℕ)
    → rate r ≡ some (some (n, secs))
    → (0 < n) × (n ≤ 65535) × (0 < secs) × (secs ≤ 3600)
unfolding rate
rate_bounds r n secs h = rate_of_bounds r.limit n secs h

-- The multiplier of a window's suffix.
abbrev pub multiplier : ℕ → ℕ
multiplier unit = if unit == b'm' then 60 else 1

window_of_suffix :
    (unit : ℕ) (s : Text)
    → (unit == b's' || unit == b'm') ≡ true
    → window_of (s ++ unit ∷ []) ≡ (s, multiplier unit)
unfolding window_of
window_of_suffix unit s h =
    rw (reverse-append s (unit ∷ []), window_of) (ground (arith, reverse-reverse s))

-- A window as it is written: a number and a suffix.
abbrev pub window_text : ℕ → ℕ → Text
window_text num unit = print_uint num (unit ∷ [])

abbrev pub limit_text : ℕ → ℕ → ℕ → Text
limit_text n num unit = print_uint n (b'/' ∷ window_text num unit)

trim-window_text :
    (num unit : ℕ)
    → (unit == b's' || unit == b'm') ≡ true
    → trim (window_text num unit) ≡ print_uint num [] ++ unit ∷ []
trim-window_text num unit h = rw (print_uint-append num [] (unit ∷ [])) (
    trim-Solid (print_uint num [] ++ unit ∷ []) (
      append-Solid (print_uint num []) (unit ∷ [])
        (AllDigits-Solid (print_uint num []) (print_uint-AllDigits num [] tt)) (ground arith, tt)))

-- What `Rule::rate` makes of a written limit, a wrap of the window included.
rate-limit_text :
    (r : Rule) (n num unit : ℕ)
    → r.limit ≡ some (limit_text n num unit)
    → n ≤ u16_max
    → num ≤ u32_max
    → (unit == b's' || unit == b'm') ≡ true
    → rate r ≡ (
        let secs = num * multiplier unit % 2 ^ 32 in
        if n == 0 || secs == 0 || ltb 3600 secs then none else some (some (n, secs % 2 ^ 16)))
unfolding rate
rate-limit_text r n num unit limit hn hnum hu =
    rw (limit, rate_of)
      (rw (split_once-print_uint b'/' n (window_text num unit) refl) (
        rw (trim-window_text num unit hu) (
          rw (window_of_suffix unit (print_uint num []) hu) (
            rw (trim-print_uint n) (
              rw (parse_uint-print_uint u16_max n hn) (
                rw (trim-print_uint num)
                  (rw (parse_uint-print_uint u32_max num hnum, check_rate))))))))

-- A limit written as a count from 1 to 65535, a slash, and a number of seconds or minutes that comes
-- to 1 to 3600 seconds is read as that count and that many seconds.
pub rate-written :
    (r : Rule) (n num unit : ℕ)
    → r.limit ≡ some (limit_text n num unit)
    → 0 < n
    → n ≤ u16_max
    → (unit == b's' || unit == b'm') ≡ true
    → 0 < num
    → num * multiplier unit ≤ 3600
    → rate r ≡ some (some (n, num * multiplier unit))
rate-written r n num unit limit pos hn hu hnum small =
    rate-limit_text r n num unit limit hn (ground arith) hu ∙ ground arith

-- A window in minutes that does not fit 32 bits of seconds wraps before the check of one hour: a
-- limit over `num` minutes, more than an hour, is accepted as one over the remainder of its seconds
-- by 2^32, whenever that remainder is from 1 to 3600.
pub rate_wraps :
    (r : Rule) (n num : ℕ)
    → r.limit ≡ some (limit_text n num b'm')
    → 0 < n
    → n ≤ u16_max
    → num ≤ u32_max
    → 60 < num
    → 0 < num * 60 % 2 ^ 32
    → num * 60 % 2 ^ 32 ≤ 3600
    → rate r ≡ some (some (n, num * 60 % 2 ^ 32))
rate_wraps r n num limit pos hn hnum long some_left small =
    rate-limit_text r n num b'm' limit hn hnum refl ∙ ground arith
