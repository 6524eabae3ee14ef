-- ===== src/Detector/Escalation.antt =====
-- ai-firewall/src/detector.rs, `escalate`: how long the bans of a repeat offender last.
use ai_firewall.Prelude.{
  ℕ, ◌+◌, ◌-◌, ◌*◌, ◌%◌, ◌^◌, ◌≤◌, ◌<◌, min, ◌≡◌, ap, ◌∙◌, none, some, List, [], ◌∷◌, length, arith,
}
use ai_firewall.Prelude.Bits.{pow2_pos}
use ai_firewall.Detector.{BanConfig, Offender, u64_max}
use ai_firewall.Detector.Observe.{strike, ban_secs}

-- The checks that `Config::validate` makes of the ban lengths, and that they are u64.
abbrev pub Sound : BanConfig → Type 0
Sound b = (0 < b.base_secs) × (b.base_secs ≤ b.max_secs) × (b.max_secs ≤ u64_max)

abbrev doublings : ℕ → ℕ
doublings strikes = min ((strikes + 2 ^ 32 - 1) % 2 ^ 32) 20

ban_secs-min :
    (b : BanConfig) (strikes : ℕ)
    → Sound b
    → ban_secs b strikes ≡ min (b.base_secs * 2 ^ doublings strikes) b.max_secs
unfolding ban_secs
ban_secs-min b strikes h = omega arith

grows : (a k : ℕ) → a ≤ a * 2 ^ k
grows a k = grind (arith, pow2_pos k)

-- Under settings that pass the checks every ban lasts at least the base and at most the maximum.
pub ban_secs_bounds :
    (b : BanConfig) (strikes : ℕ)
    → Sound b
    → (b.base_secs ≤ ban_secs b strikes) × (ban_secs b strikes ≤ b.max_secs)
ban_secs_bounds b strikes h =
    let e = ban_secs-min b strikes h in
    let g = grows b.base_secs (doublings strikes) in (omega arith, omega arith)

-- The offender's record after bans at these times.
unfoldable pub struck : BanConfig → Offender → List ℕ → Offender
struck b o [] = o
struck b o (now ∷ times) = struck b (strike b (some o) now) times

-- Each ban comes before the last one is forgiven.
abbrev pub Persists : ℕ → ℕ → List ℕ → Type 0
Persists forgive last [] = Unit {0}
Persists forgive last (now ∷ times) = (now ≤ last + forgive) × Persists forgive now times

strike_again :
    (b : BanConfig) (o : Offender) (now : ℕ)
    → now ≤ o.last_ban + b.forgive_secs
    → o.strikes + 1 < 2 ^ 32
    → strike b (some o) now ≡ record { strikes = o.strikes + 1; last_ban = now }
unfolding strike
strike_again b o now h s =
    let e : (o.strikes + 1) % 2 ^ 32 ≡ o.strikes + 1 = omega arith in ground arith

struck_strikes :
    (b : BanConfig) (o : Offender) (times : List ℕ)
    → Persists b.forgive_secs o.last_ban times
    → o.strikes + length times < 2 ^ 32
    → (struck b o times).strikes ≡ o.strikes + length times
unfolding struck
struck_strikes b o [] h s = omega arith
struck_strikes b o (now ∷ times) h s =
    ap (λ o'. (struck b o' times).strikes) (strike_again b o now h.0 (omega arith))
    ∙ struck_strikes b (record { strikes = o.strikes + 1; last_ban = now }) times h.1 (omega arith)
    ∙ omega arith

first_strike :
    (b : BanConfig) (now : ℕ) → strike b none now ≡ record { strikes = 1; last_ban = now }
unfolding strike
first_strike b now = ground arith

-- A source that is banned again and again, each time before its strikes are forgiven, has as many
-- strikes as bans, and its bans double: the n-th lasts the base times 2^(n - 1), with the exponent
-- stopping at 20, and never longer than the maximum.
pub repeat_offender :
    (b : BanConfig) (now : ℕ) (times : List ℕ)
    → Sound b
    → Persists b.forgive_secs now times
    → length (now ∷ times) < 2 ^ 32
    → let o = struck b (strike b none now) times in
      (o.strikes ≡ length (now ∷ times))
      × (ban_secs b o.strikes ≡ min (b.base_secs * 2 ^ min (length times) 20) b.max_secs)
repeat_offender b now times h p s =
    let first : Offender = record { strikes = 1; last_ban = now } in
    let n = struck_strikes b first times p (omega arith) in
    rw (first_strike b now) (
      n ∙ omega arith,
      ban_secs-min b (struck b first times).strikes h
          ∙ ap (λ k. min (b.base_secs * 2 ^ k) b.max_secs) (omega arith),
    )

forgiven_strikes :
    (b : BanConfig) (o : Offender) (now : ℕ)
    → o.last_ban + b.forgive_secs < now
    → (strike b (some o) now).strikes ≡ 1
unfolding strike
forgiven_strikes b o now quiet = ground arith

-- A source that stayed quiet for longer than the forgiveness time starts again: its next ban is its
-- first strike, and lasts the base.
pub forgiven :
    (b : BanConfig) (o : Offender) (now : ℕ)
    → Sound b
    → o.last_ban + b.forgive_secs < now
    → let o' = strike b (some o) now in (o'.strikes ≡ 1) × (ban_secs b o'.strikes ≡ b.base_secs)
forgiven b o now h quiet =
    let one = forgiven_strikes b o now quiet in (one, rw one (ban_secs-min b 1 h ∙ omega arith))
