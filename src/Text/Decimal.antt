-- ===== src/Text/Decimal.antt =====
-- Printing and parsing decimal numbers and dotted addresses.
use ai_firewall.Prelude.{
  ℕ, zero, suc, ◌+◌, ◌*◌, ◌/◌, ◌%◌, ◌^◌, ◌≤◌, ◌<◌, ◌≡◌, refl, ap, ◌∙◌, Bool, true, false, Option,
  none, some, [], ◌∷◌, ◌++◌, ltb, ◌==◌, arith, Bool-cases, inl, inr,
}
use ai_firewall.Prelude.Bits.{all_below, all_below_sound}
use ai_firewall.Text.{
  Text, is_digit, at_most, digits_value, parse_uint, parse_octet, parse_ipv4, print_digits,
  print_uint, print_ipv4, split,
}

digits_value_step :
    (acc d : ℕ) (rest : Text)
    → d < 10
    → digits_value acc ((b'0' + d) ∷ rest) ≡ digits_value (acc * 10 + d) rest
unfolding digits_value
digits_value_step acc d rest h = ground arith

digits_value-print_digits :
    (fuel n : ℕ) (rest : Text)
    → n < fuel
    → digits_value 0 (print_digits fuel n rest) ≡ digits_value n rest
unfolding print_digits
digits_value-print_digits zero n rest h = elim h [ ]
digits_value-print_digits (suc fuel) n rest h = ground (
  arith,
  digits_value-print_digits fuel (n / 10) ((b'0' + n % 10) ∷ rest),
  digits_value_step (n / 10) (n % 10) rest,
  digits_value_step 0 (n % 10) rest,
)

-- The text starts with a digit.
abbrev pub Starts : Text → Type 0
Starts [] = ⊥
Starts (c ∷ s) = is_digit c ≡ true

print_digits-Starts : (fuel n : ℕ) (rest : Text) → n < fuel → Starts (print_digits fuel n rest)
unfolding print_digits
print_digits-Starts zero n rest h = elim h [ ]
print_digits-Starts (suc fuel) n rest h = elim (Bool-cases (ltb n 10)) [
  | inl small ↦ rw small (ground arith)
  | inr big ↦ rw big (print_digits-Starts fuel (n / 10) ((b'0' + n % 10) ∷ rest) (ground arith))
]

pub print_uint-Starts : (n : ℕ) (rest : Text) → Starts (print_uint n rest)
unfolding print_uint
print_uint-Starts n rest = print_digits-Starts (suc n) n rest (omega arith)

parse_uint-Starts :
    (max : ℕ) (s : Text) → Starts s → parse_uint max s ≡ at_most max (digits_value 0 s)
unfolding parse_uint
parse_uint-Starts max [] h = elim h [ ]
parse_uint-Starts max (c ∷ []) h = unfold digits_value in (ground arith)
parse_uint-Starts max (c ∷ d ∷ s) h = rw (not_plus c h)
  where
    not_plus : (c : ℕ) → is_digit c ≡ true → (c == b'+') ≡ false
    not_plus c h = ground arith

-- A printed number is parsed as that number, at every type that holds it.
pub parse_uint-print_uint : (max n : ℕ) → n ≤ max → parse_uint max (print_uint n []) ≡ some n
unfolding print_uint
parse_uint-print_uint max n h =
    parse_uint-Starts max (print_digits (suc n) n [])
      (print_digits-Starts (suc n) n [] (omega arith))
    ∙ ap (at_most max) (digits_value-print_digits (suc n) n [] (omega arith))
    ∙ (unfold digits_value in (ground arith))

print_digits-append :
    (fuel n : ℕ) (a b : Text) → print_digits fuel n (a ++ b) ≡ print_digits fuel n a ++ b
unfolding print_digits
print_digits-append zero n a b = refl
print_digits-append (suc fuel) n a b =
    ground (arith, print_digits-append fuel (n / 10) ((b'0' + n % 10) ∷ a) b)

abbrev pub AllDigits : Text → Type 0
AllDigits [] = Unit {0}
AllDigits (c ∷ s) = (is_digit c ≡ true) × AllDigits s

print_digits-AllDigits :
    (fuel n : ℕ) (rest : Text) → AllDigits rest → AllDigits (print_digits fuel n rest)
unfolding print_digits
print_digits-AllDigits zero n rest h = h
print_digits-AllDigits (suc fuel) n rest h = elim (Bool-cases (ltb n 10)) [
  | inl small ↦ rw small (ground arith, h)
  | inr big ↦
      rw big (print_digits-AllDigits fuel (n / 10) ((b'0' + n % 10) ∷ rest) (ground arith, h))
]

pub print_uint-AllDigits : (n : ℕ) (rest : Text) → AllDigits rest → AllDigits (print_uint n rest)
unfolding print_uint
print_uint-AllDigits n rest h = print_digits-AllDigits (suc n) n rest h

pub print_uint-append : (n : ℕ) (a b : Text) → print_uint n (a ++ b) ≡ print_uint n a ++ b
unfolding print_uint
print_uint-append n a b = print_digits-append (suc n) n a b

abbrev dot : ℕ → Bool
dot c = c == b'.'

split-digits : (s rest : Text) → AllDigits s → split dot (s ++ b'.' ∷ rest) ≡ s ∷ split dot rest
unfolding split
split-digits [] rest h = refl
split-digits (c ∷ s) rest h = ground (arith, split-digits s rest h.1)

split-digits_end : (s : Text) → AllDigits s → split dot s ≡ s ∷ []
unfolding split
split-digits_end [] h = refl
split-digits_end (c ∷ s) h = ground (arith, split-digits_end s h.1)

split-print_uint :
    (n : ℕ) (rest : Text)
    → split dot (print_uint n (b'.' ∷ rest)) ≡ print_uint n [] ∷ split dot rest
unfolding print_uint
split-print_uint n rest =
    rw (print_digits-append (suc n) n [] (b'.' ∷ rest))
      (split-digits (print_digits (suc n) n []) rest (print_digits-AllDigits (suc n) n [] tt))

split-print_uint_end : (n : ℕ) → split dot (print_uint n []) ≡ print_uint n [] ∷ []
unfolding print_uint
split-print_uint_end n =
    split-digits_end (print_digits (suc n) n []) (print_digits-AllDigits (suc n) n [] tt)

abbrev is_value : ℕ → Option ℕ → Bool
is_value n none = false
is_value n (some m) = m == n

is_value_eq : (n : ℕ) (o : Option ℕ) → is_value n o ≡ true → o ≡ some n
is_value_eq n none h = cc
is_value_eq n (some m) h = ground arith

parse_octet-print_uint : (n : ℕ) → n < 256 → parse_octet (print_uint n []) ≡ some n
unfolding all_below parse_octet print_uint digits_value
parse_octet-print_uint n h =
    is_value_eq n (parse_octet (print_uint n []))
      (all_below_sound 256 (λ x. is_value x (parse_octet (print_uint x []))) n h refl)

split-print_ipv4 :
    (ip : ℕ)
    → split dot (print_ipv4 ip)
      ≡ print_uint (ip / 2 ^ 24 % 256) []
        ∷ print_uint (ip / 2 ^ 16 % 256) []
        ∷ print_uint (ip / 2 ^ 8 % 256) []
        ∷ print_uint (ip % 256) []
        ∷ []
unfolding print_ipv4
split-print_ipv4 ip = simp (split-print_uint, split-print_uint_end)

-- A printed IPv4 address is parsed as that address.
pub parse_ipv4-print_ipv4 : (ip : ℕ) → ip < 2 ^ 32 → parse_ipv4 (print_ipv4 ip) ≡ some ip
unfolding parse_ipv4
parse_ipv4-print_ipv4 ip h =
    rw
      (
        split-print_ipv4 ip,
        parse_octet-print_uint (ip / 2 ^ 24 % 256) (omega arith),
        parse_octet-print_uint (ip / 2 ^ 16 % 256) (omega arith),
        parse_octet-print_uint (ip / 2 ^ 8 % 256) (omega arith),
        parse_octet-print_uint (ip % 256) (omega arith),
      )
      (ap some (omega arith))
