-- ===== src/Text/Words.antt =====
-- More of what the daemon uses of Rust's text: prefixes, the search for a text, `lines`, `split` and
-- `trim_matches` with a test, and the words between white space.
use mathlib.Core.List.{reverse}
use ai_firewall.Prelude.{
  ℕ, ◌+◌, ◌≡◌, refl, Bool, true, false, ◌&&◌, ◌||◌, Option, none, some, List, [], ◌∷◌, ◌++◌, retain,
  ◌==◌, leb, if◌then◌else◌, is_some, arith,
}
use ai_firewall.Prelude.Option
use ai_firewall.Text.{split_once, Text, is_whitespace, split}

unfoldable pub strip_prefix : Text → Text → Option Text
strip_prefix [] s = some s
strip_prefix (c ∷ p) [] = none
strip_prefix (c ∷ p) (d ∷ s) = if c == d then strip_prefix p s else none

pub strip_prefix-append : (p s : Text) → strip_prefix p (p ++ s) ≡ some s
unfolding strip_prefix
strip_prefix-append [] s = refl
strip_prefix-append (c ∷ p) s = ground (arith, strip_prefix-append p s)

pub strip_prefix_eq : (p s r : Text) → strip_prefix p s ≡ some r → s ≡ p ++ r
unfolding strip_prefix
strip_prefix_eq [] s r h = cc
strip_prefix_eq (c ∷ p) [] r h = cc
strip_prefix_eq (c ∷ p) (d ∷ s) r h = ground (arith, strip_prefix_eq p s r)

abbrev pub starts_with : Text → Text → Bool
starts_with p s = is_some (strip_prefix p s)

unfoldable pub ends_with : Text → Text → Bool
unfolding strip_prefix
ends_with p s = starts_with (reverse p) (reverse s)

-- `str::contains`.
unfoldable pub contains_text : Text → Text → Bool
unfolding strip_prefix
contains_text p [] = starts_with p []
contains_text p (c ∷ s) = starts_with p (c ∷ s) || contains_text p s

-- `split_whitespace`: the words, none of them empty.
abbrev pub not_empty : Text → Bool
not_empty [] = false
not_empty (c ∷ s) = true

unfoldable pub split_whitespace : Text → List Text
split_whitespace s = retain not_empty (split is_whitespace s)

-- `lines`: without the line ends, and without an empty last line.
strip_return : Text → Text
strip_return l = elim (reverse l) [ [] ↦ l | c ∷ front ↦ if c == 13 then reverse front else l ]

lines_of : List Text → List Text
lines_of [] = []
lines_of ([] ∷ []) = []
lines_of (l ∷ ls) = strip_return l ∷ lines_of ls

unfoldable pub lines : Text → List Text
unfolding lines_of strip_return
lines text = lines_of (split (λ c. c == 10) text)

-- `trim_start_matches` and `trim_matches`, with a test of characters.
unfoldable pub trim_start_matches : (ℕ → Bool) → Text → Text
trim_start_matches p [] = []
trim_start_matches p (c ∷ s) = if p c then trim_start_matches p s else c ∷ s

unfoldable pub trim_end_matches : (ℕ → Bool) → Text → Text
unfolding trim_start_matches
trim_end_matches p s = reverse (trim_start_matches p (reverse s))

unfoldable pub trim_matches : (ℕ → Bool) → Text → Text
unfolding trim_end_matches
trim_matches p s = trim_end_matches p (trim_start_matches p s)

unfoldable pub to_lower : ℕ → ℕ
to_lower c = if leb b'A' c && leb c b'Z' then c + 32 else c

-- `split_once` at a text.
unfoldable pub split_once_at : Text → Text → Option (Text × Text)
split_once_at p [] = Option.map (λ rest. ([], rest)) (strip_prefix p [])
split_once_at p (c ∷ s) = elim (strip_prefix p (c ∷ s)) [
  | some rest ↦ some ([], rest)
  | none ↦ Option.map (λ (found : Text × Text). (c ∷ found.0, found.1)) (split_once_at p s)
]

-- `rsplit_once`, at the last `sep`.
unfoldable pub rsplit_once : ℕ → Text → Option (Text × Text)
unfolding split_once
rsplit_once sep s =
    Option.map (λ (parts : Text × Text). (reverse parts.1, reverse parts.0))
      (split_once sep (reverse s))
