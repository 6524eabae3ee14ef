-- ===== src/Config/Ports.antt =====
-- ai-firewall/src/config.rs: `PortSpec`, `expand` and `Rule` with its rate. An arithmetic overflow
-- wraps, as in a release build.
pub mod Expand
pub mod Rates
use ai_firewall.Prelude.{
  ℕ, zero, suc, ◌+◌, ◌-◌, ◌*◌, ◌%◌, ◌^◌, Bool, true, false, not, ◌&&◌, ◌||◌, Option, none, some,
  List, [], ◌∷◌, ◌++◌, ltb, leb, ◌==◌, if◌then◌else◌,
}
use mathlib.Core.List.{reverse}
use ai_firewall.Text.{Text, codes, trim, split_once, parse_uint, print_uint, text_eq}
use ai_firewall.Config.Cidr.{u16_max, u32_max}

pub data PortSpec : Type 0 where
  one : ℕ → PortSpec
  text : Text → PortSpec

abbrev unwrap_pair : Option (Text × Text) → Text → Text × Text
unwrap_pair none t = (t, t)
unwrap_pair (some p) t = p

-- The bounds of the range, if they are ports in order and at most 4096 of them.
check_range : Option ℕ → Option ℕ → Option (ℕ × ℕ)
check_range none b = none
check_range (some a) none = none
check_range (some a) (some b) = if a == 0 || ltb b a || leb 4096 (b - a) then none else some (a, b)

-- `PortSpec::ports`: the ends of the inclusive range.
unfoldable pub ports : PortSpec → Option (ℕ × ℕ)
unfolding check_range
ports (one p) = if p == 0 then none else some (p, p)
ports (text t) =
    let (a, b) = unwrap_pair (split_once b'-' t) t in
    check_range (parse_uint u16_max (trim a)) (parse_uint u16_max (trim b))

unfoldable pub label : PortSpec → Text
label (one p) = print_uint p []
label (text t) = trim t

-- `n` ports from `a` on.
unfoldable pub range_from : ℕ → ℕ → List ℕ
range_from a zero = []
range_from a (suc n) = a ∷ range_from (suc a) n

unfoldable pub range_of : ℕ × ℕ → List ℕ
unfolding range_from
range_of (a, b) = range_from a (suc b - a)

unfoldable pub collect : List PortSpec → Option (List ℕ)
collect [] = some []
collect (s ∷ specs) =
    let rest = collect specs in
    elim (ports s) [
      | none ↦ none
      | some r ↦ elim rest [ none ↦ none | some out ↦ some (range_of r ++ out) ]
    ]

-- `sort_unstable` and `dedup`.
unfoldable pub insert_sorted : ℕ → List ℕ → List ℕ
insert_sorted a [] = a ∷ []
insert_sorted a (x ∷ xs) = if leb a x then a ∷ x ∷ xs else x ∷ insert_sorted a xs

unfoldable pub sort : List ℕ → List ℕ
sort [] = []
sort (x ∷ xs) = insert_sorted x (sort xs)

unfoldable pub dedup : List ℕ → List ℕ
dedup [] = []
dedup (x ∷ []) = x ∷ []
dedup (x ∷ y ∷ xs) = let rest = dedup (y ∷ xs) in if x == y then rest else x ∷ rest

unfoldable pub expand : List PortSpec → Option (List ℕ)
expand specs = elim (collect specs) [ none ↦ none | some out ↦ some (dedup (sort out)) ]

pub record Rule : Type 0 where
  pub proto : Text
  pub port : PortSpec
  pub from : Option Text
  pub limit : Option Text

-- The number and the multiplier of a window: "30s", "5m" or "30".
unfoldable pub window_of : Text → Text × ℕ
window_of w = elim (reverse w) [
  | [] ↦ (w, 1)
  | c ∷ front ↦
      if c == b's' then (reverse front, 1) else if c == b'm' then (reverse front, 60) else (w, 1)
]

check_rate : Option ℕ → Option ℕ → ℕ → Option (Option (ℕ × ℕ))
check_rate none secs mult = none
check_rate (some n) none mult = none
check_rate (some n) (some num) mult =
    let secs = num * mult % 2 ^ 32 in
    if n == 0 || secs == 0 || ltb 3600 secs then none else some (some (n, secs % 2 ^ 16))

rate_of : Option Text → Option (Option (ℕ × ℕ))
unfolding check_rate
rate_of none = some none
rate_of (some l) = elim (split_once b'/' l) [
  | none ↦ none
  | some (n, w) ↦
      let (num, mult) = window_of (trim w) in
      check_rate (parse_uint u16_max (trim n)) (parse_uint u32_max (trim num)) mult
]

-- `Rule::rate`: an error, no limit, or (count, seconds).
unfoldable pub rate : Rule → Option (Option (ℕ × ℕ))
unfolding rate_of
rate r = rate_of r.limit

-- ` word value` behind a label, if there is a value.
with_word : Text → Option Text → Text
with_word word none = []
with_word word (some t) = word ++ t

unfoldable pub rule_label : Rule → Text
unfolding with_word
rule_label r =
    r.proto
    ++ b' ' ∷ label r.port
    ++ (with_word (codes " from ") r.from ++ with_word (codes " limit ") r.limit)
