-- ===== src/Text/Trim.antt =====
-- Texts without white space, and the pieces of a text that is cut at a separator.
use mathlib.Core.List.{reverse, reverse-cons, reverse-reverse}
use ai_firewall.Prelude.{ℕ, ◌≡◌, refl, ap, ◌∙◌, true, false, none, some, [], ◌∷◌, ◌++◌, arith}
use ai_firewall.Text.{Text, is_whitespace, trim_start, trim, split_once, is_digit, print_uint}
use ai_firewall.Text.Decimal.{AllDigits, print_uint-AllDigits, print_uint-append}

abbrev pub Solid : Text → Type 0
Solid [] = Unit {0}
Solid (c ∷ s) = (is_whitespace c ≡ false) × Solid s

trim_start-Solid : (s : Text) → Solid s → trim_start s ≡ s
unfolding trim_start
trim_start-Solid [] h = refl
trim_start-Solid (c ∷ s) h = rw h.0

pub append-Solid : (s t : Text) → Solid s → Solid t → Solid (s ++ t)
append-Solid [] t hs ht = ht
append-Solid (c ∷ s) t hs ht = (hs.0, append-Solid s t hs.1 ht)

reverse-Solid : (s : Text) → Solid s → Solid (reverse s)
reverse-Solid [] h = tt
reverse-Solid (c ∷ s) h =
    rw (reverse-cons c s) (append-Solid (reverse s) (c ∷ []) (reverse-Solid s h.1) (h.0, tt))

-- `trim` keeps a text that has no white space.
pub trim-Solid : (s : Text) → Solid s → trim s ≡ s
unfolding trim
trim-Solid s h =
    rw (trim_start-Solid s h)
      (ap reverse (trim_start-Solid (reverse s) (reverse-Solid s h)) ∙ reverse-reverse s)

pub AllDigits-Solid : (s : Text) → AllDigits s → Solid s
AllDigits-Solid [] h = tt
AllDigits-Solid (c ∷ s) h = (solid_digit c h.0, AllDigits-Solid s h.1)
  where
    solid_digit : (c : ℕ) → is_digit c ≡ true → is_whitespace c ≡ false
    solid_digit c h = ground arith

-- A text without the separator, then the separator, then the rest.
split_once-digits :
    (sep : ℕ) (s rest : Text)
    → is_digit sep ≡ false
    → AllDigits s
    → split_once sep (s ++ sep ∷ rest) ≡ some (s, rest)
unfolding split_once
split_once-digits sep [] rest h d = ground arith
split_once-digits sep (c ∷ s) rest h d = ground (arith, split_once-digits sep s rest h d.1)

split_once-digits_none :
    (sep : ℕ) (s : Text) → is_digit sep ≡ false → AllDigits s → split_once sep s ≡ none
unfolding split_once
split_once-digits_none sep [] h d = refl
split_once-digits_none sep (c ∷ s) h d = ground (arith, split_once-digits_none sep s h d.1)

pub split_once-print_uint :
    (sep n : ℕ) (rest : Text)
    → is_digit sep ≡ false
    → split_once sep (print_uint n (sep ∷ rest)) ≡ some (print_uint n [], rest)
split_once-print_uint sep n rest h =
    rw (print_uint-append n [] (sep ∷ rest))
      (split_once-digits sep (print_uint n []) rest h (print_uint-AllDigits n [] tt))

pub split_once-print_uint-none :
    (sep n : ℕ) → is_digit sep ≡ false → split_once sep (print_uint n []) ≡ none
split_once-print_uint-none sep n h =
    split_once-digits_none sep (print_uint n []) h (print_uint-AllDigits n [] tt)

pub trim-print_uint : (n : ℕ) → trim (print_uint n []) ≡ print_uint n []
trim-print_uint n =
    trim-Solid (print_uint n []) (AllDigits-Solid (print_uint n []) (print_uint-AllDigits n [] tt))
