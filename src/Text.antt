-- ===== src/Text.antt =====
-- What the daemon uses of Rust's text: a `str` is the list of its code points. `trim`, `split_once`,
-- `split`, `parse` for unsigned integers and for `Ipv4Addr`, and the decimal `to_string`.
pub mod Decimal
pub mod Bounds
pub mod Trim
pub mod Words
use ai_firewall.Prelude.{
  ℕ, zero, suc, ◌+◌, ◌-◌, ◌*◌, ◌/◌, ◌%◌, ◌^◌, map, Bool, true, false, not, ◌&&◌, ◌||◌, Option, none,
  some, List, [], ◌∷◌, ◌++◌, length, ltb, leb, ◌==◌, ==_iff, Eq, ◌≡◌, refl, ◌↔◌, subst, arith,
  if◌then◌else◌,
}
use mathlib.Core.List.{reverse}
use Prim.Native.Char.{code}
use Prim.Native.String.{String}

abbrev pub Text : Type 0
Text = List ℕ

abbrev pub codes : String → Text
codes String.[] = []
codes (String.◌∷◌ c s) = code c ∷ codes s

-- `==` on texts.
abbrev pub text_eq : Text → Text → Bool
text_eq [] [] = true
text_eq [] (d ∷ t) = false
text_eq (c ∷ s) [] = false
text_eq (c ∷ s) (d ∷ t) = c == d && text_eq s t

eq_of_text_eq : (s t : Text) → text_eq s t ≡ true → s ≡ t
eq_of_text_eq [] [] h = refl
eq_of_text_eq [] (d ∷ t) h = cc
eq_of_text_eq (c ∷ s) [] h = cc
eq_of_text_eq (c ∷ s) (d ∷ t) h = ground (arith, eq_of_text_eq s t)

text_eq_refl : (s : Text) → text_eq s s ≡ true
text_eq_refl [] = refl
text_eq_refl (c ∷ s) = ground (arith, text_eq_refl s, ==_iff c c)

pub text_eq_iff : (s t : Text) → (text_eq s t ≡ true) ↔ (s ≡ t)
text_eq_iff s t = (eq_of_text_eq s t, λ e. subst (λ u. text_eq s u ≡ true) e (text_eq_refl s))

instance abbrev pub text_Eq : Eq Text
text_Eq = record { beq = text_eq; beq_iff = text_eq_iff }

-- `char::is_whitespace`, the property White_Space of Unicode.
abbrev pub is_whitespace : ℕ → Bool
is_whitespace c =
    leb 9 c && leb c 13
    || c == 32
    || c == 0x85
    || c == 0xa0
    || c == 0x1680
    || leb 0x2000 c && leb c 0x200a
    || c == 0x2028
    || c == 0x2029
    || c == 0x202f
    || c == 0x205f
    || c == 0x3000

unfoldable pub trim_start : Text → Text
trim_start [] = []
trim_start (c ∷ s) = if is_whitespace c then trim_start s else c ∷ s

unfoldable pub trim : Text → Text
unfolding trim_start
trim s = reverse (trim_start (reverse (trim_start s)))

-- `split_once(sep)`, at the first `sep`.
unfoldable pub split_once : ℕ → Text → Option (Text × Text)
split_once sep [] = none
split_once sep (c ∷ s) =
    let rest = split_once sep s in
    if c == sep then some ([], s) else elim rest [ none ↦ none | some (a, b) ↦ some (c ∷ a, b) ]

-- `c` in front of the first piece.
abbrev pub onto : ℕ → List Text → List Text
onto c [] = (c ∷ []) ∷ []
onto c (piece ∷ pieces) = (c ∷ piece) ∷ pieces

-- `split(sep)`, every piece, the empty ones too.
unfoldable pub split : (ℕ → Bool) → Text → List Text
split sep [] = [] ∷ []
split sep (c ∷ s) = let rest = split sep s in if sep c then [] ∷ rest else onto c rest

abbrev pub is_digit : ℕ → Bool
is_digit c = leb b'0' c && leb c b'9'

-- The value of decimal digits, after a prefix of value `acc`.
unfoldable pub digits_value : ℕ → Text → Option ℕ
digits_value acc [] = some acc
digits_value acc (c ∷ s) =
    let rest = digits_value (acc * 10 + (c - b'0')) s in if is_digit c then rest else none

abbrev pub at_most : ℕ → Option ℕ → Option ℕ
at_most max none = none
at_most max (some n) = if leb n max then some n else none

-- `str::parse` at an unsigned integer type whose largest value is `max`: an optional plus sign and
-- at least one digit.
unfoldable pub parse_uint : ℕ → Text → Option ℕ
parse_uint max [] = none
parse_uint max (c ∷ []) = if is_digit c then at_most max (some (c - b'0')) else none
parse_uint max (c ∷ d ∷ s) =
    if c == b'+'
    then at_most max (digits_value 0 (d ∷ s))
    else at_most max (digits_value 0 (c ∷ d ∷ s))

-- One part of a dotted address: up to three digits, no leading zero, at most 255.
unfoldable pub parse_octet : Text → Option ℕ
parse_octet [] = none
parse_octet (c ∷ []) = at_most 255 (digits_value 0 (c ∷ []))
parse_octet (c ∷ d ∷ s) =
    if c == b'0' || ltb 1 (length s) then none else at_most 255 (digits_value 0 (c ∷ d ∷ s))

octets : List (Option ℕ) → Option ℕ
octets (some a ∷ some b ∷ some c ∷ some d ∷ []) = some (((a * 256 + b) * 256 + c) * 256 + d)
octets _ = none

-- `Ipv4Addr::from_str`, as `u32::from` reads the result.
unfoldable pub parse_ipv4 : Text → Option ℕ
unfolding octets
parse_ipv4 s = octets (map parse_octet (split (λ c. c == b'.') s))

-- `to_string` of an unsigned integer, in front of `rest`; the number of digits is at most `fuel`.
unfoldable pub print_digits : ℕ → ℕ → Text → Text
print_digits zero n rest = rest
print_digits (suc fuel) n rest =
    let text = (b'0' + n % 10) ∷ rest in
    let more = print_digits fuel (n / 10) text in if ltb n 10 then text else more

unfoldable pub print_uint : ℕ → Text → Text
unfolding print_digits
print_uint n rest = print_digits (suc n) n rest

unfoldable pub print_ipv4 : ℕ → Text
print_ipv4 ip = print_uint (ip / 2 ^ 24 % 256) (
    b'.'
    ∷ print_uint (ip / 2 ^ 16 % 256)
        (b'.' ∷ print_uint (ip / 2 ^ 8 % 256) (b'.' ∷ print_uint (ip % 256) [])))
