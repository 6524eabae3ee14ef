-- ===== src/Text/Bounds.antt =====
-- The values that parsing can return.
use ai_firewall.Prelude.{
  ℕ, ◌^◌, ◌≤◌, ◌<◌, ◌≡◌, refl, Option, none, some, List, [], ◌∷◌, map, ◌==◌, arith,
}
use ai_firewall.Text.{
  Text, at_most, digits_value, parse_uint, parse_octet, octets, parse_ipv4, split,
}

pub at_most-le : (max n : ℕ) (o : Option ℕ) → at_most max o ≡ some n → n ≤ max
at_most-le max n none h = cc
at_most-le max n (some m) h = ground arith

pub parse_uint-le : (max n : ℕ) (s : Text) → parse_uint max s ≡ some n → n ≤ max
unfolding parse_uint
parse_uint-le max n [] h = cc
parse_uint-le max n (c ∷ []) h = ground arith
parse_uint-le max n (c ∷ d ∷ s) h = ground (
  arith,
  at_most-le max n (digits_value 0 (d ∷ s)),
  at_most-le max n (digits_value 0 (c ∷ d ∷ s)),
)

abbrev AllBytes : List (Option ℕ) → Type 0
AllBytes [] = Unit {0}
AllBytes (none ∷ os) = AllBytes os
AllBytes (some n ∷ os) = (n ≤ 255) × AllBytes os

octets-lt : (os : List (Option ℕ)) (ip : ℕ) → AllBytes os → octets os ≡ some ip → ip < 2 ^ 32
unfolding octets
octets-lt (some a ∷ some b ∷ some c ∷ some d ∷ []) ip h e = ground arith
octets-lt _ ip h e = cc

parse_octet-le : (n : ℕ) (s : Text) → parse_octet s ≡ some n → n ≤ 255
unfolding parse_octet
parse_octet-le n [] h = cc
parse_octet-le n (c ∷ []) h = at_most-le 255 n (digits_value 0 (c ∷ [])) h
parse_octet-le n (c ∷ d ∷ s) h = ground (arith, at_most-le 255 n (digits_value 0 (c ∷ d ∷ s)))

one_byte :
    (o : Option ℕ) (os : List (Option ℕ))
    → ((n : ℕ) → o ≡ some n → n ≤ 255)
    → AllBytes os
    → AllBytes (o ∷ os)
one_byte none os h rest = rest
one_byte (some n) os h rest = (h n refl, rest)

map-AllBytes : (ss : List Text) → AllBytes (map parse_octet ss)
map-AllBytes [] = tt
map-AllBytes (s ∷ ss) =
    one_byte (parse_octet s) (map parse_octet ss) (λ n. parse_octet-le n s) (map-AllBytes ss)

pub parse_ipv4-lt : (s : Text) (ip : ℕ) → parse_ipv4 s ≡ some ip → ip < 2 ^ 32
unfolding parse_ipv4
parse_ipv4-lt s ip e = octets-lt (map parse_octet (split (λ c. c == b'.') s)) ip (map-AllBytes _) e
