-- ===== src/Assistant/Think/Prefixes.antt =====
-- How the tests for a prefix and the search for a text go on when more text follows.
use ai_firewall.Prelude.{
  ℕ, ◌≤◌, ◌<◌, ◌≡◌, refl, true, false, Option, none, some, [], ◌∷◌, ◌++◌, length, arith,
  Option-cases, inl, inr,
}
use ai_firewall.Prelude.Option
use ai_firewall.Text.{Text, trim_start}
use ai_firewall.Text.Words.{split_once_at, strip_prefix, starts_with}

-- Neither text is a prefix of the other, and that does not change.
pub apart-append :
    (p t r : Text)
    → starts_with t p ≡ false
    → starts_with p t ≡ false
    → (starts_with (t ++ r) p ≡ false) × (starts_with p (t ++ r) ≡ false)
unfolding strip_prefix
apart-append [] t r h k = cc
apart-append (c ∷ p) [] r h k = cc
apart-append (c ∷ p) (d ∷ t) r h k = ground (arith, apart-append p t r)

pub proper-length :
    (p t : Text) → starts_with t p ≡ true → starts_with p t ≡ false → length t < length p
unfolding strip_prefix
proper-length [] t h k = cc
proper-length (c ∷ p) [] h k = omega arith
proper-length (c ∷ p) (d ∷ t) h k = ground (arith, proper-length p t)

pub starts_with-length : (p t : Text) → starts_with p t ≡ true → length p ≤ length t
unfolding strip_prefix
starts_with-length [] t h = omega arith
starts_with-length (c ∷ p) [] h = cc
starts_with-length (c ∷ p) (d ∷ t) h = ground (arith, starts_with-length p t)

pub strip_prefix-more :
    (p s r rest : Text) → strip_prefix p s ≡ some rest → strip_prefix p (s ++ r) ≡ some (rest ++ r)
unfolding strip_prefix
strip_prefix-more [] s r rest h = ground arith
strip_prefix-more (c ∷ p) [] r rest h = cc
strip_prefix-more (c ∷ p) (d ∷ s) r rest h = ground (arith, strip_prefix-more p s r rest)

pub strip_prefix-more_none :
    (p s r : Text) → strip_prefix p s ≡ none → length p ≤ length s → strip_prefix p (s ++ r) ≡ none
unfolding strip_prefix
strip_prefix-more_none [] s r h k = cc
strip_prefix-more_none (c ∷ p) [] r h k = elim k [ ]
strip_prefix-more_none (c ∷ p) (d ∷ s) r h k = ground (arith, strip_prefix-more_none p s r)

strip_prefix-length : (p s rest : Text) → strip_prefix p s ≡ some rest → length p ≤ length s
unfolding strip_prefix
strip_prefix-length [] s rest h = omega arith
strip_prefix-length (c ∷ p) [] rest h = cc
strip_prefix-length (c ∷ p) (d ∷ s) rest h = ground (arith, strip_prefix-length p s rest)

abbrev later : ℕ → Option (Text × Text) → Option (Text × Text)
later c o = Option.map (λ (found : Text × Text). (c ∷ found.0, found.1)) o

later-some :
    (c : ℕ) (o : Option (Text × Text)) (a b : Text)
    → later c o ≡ some (a, b)
    → (a' : Text) × (o ≡ some (a', b)) × (a ≡ c ∷ a')
later-some c none a b h = cc
later-some c (some (x, y)) a b h = (x, ground arith, ground arith)

split-length :
    (p : Text) (d : ℕ) (s a b : Text)
    → split_once_at (d ∷ p) s ≡ some (a, b)
    → length (d ∷ p) ≤ length s
unfolding split_once_at strip_prefix
split-length p d [] a b h = cc
split-length p d (c ∷ s) a b h = elim (Option-cases (strip_prefix (d ∷ p) (c ∷ s))) [
  | inr (rest, e) ↦ strip_prefix-length (d ∷ p) (c ∷ s) rest e
  | inl e ↦
      let (a', found, same) =
        later-some c (split_once_at (d ∷ p) s) a b (rw (e, split_once_at) at h) in
      omega (arith, split-length p d s a' b found)
]

-- What is found stays found: only the rest grows.
pub split_once_at-more :
    (p : Text) (d : ℕ) (s r a b : Text)
    → split_once_at (d ∷ p) s ≡ some (a, b)
    → split_once_at (d ∷ p) (s ++ r) ≡ some (a, b ++ r)
unfolding split_once_at strip_prefix
split_once_at-more p d [] r a b h = cc
split_once_at-more p d (c ∷ s) r a b h = elim (Option-cases (strip_prefix (d ∷ p) (c ∷ s))) [
  | inr (rest, e) ↦
      rw (strip_prefix-more (d ∷ p) (c ∷ s) r rest e, split_once_at)
        (cc (rw (e, split_once_at) at h))
  | inl e ↦
      let (a', found, same) =
        later-some c (split_once_at (d ∷ p) s) a b (rw (e, split_once_at) at h) in
      let long = split-length p d s a' b found in
      let still = strip_prefix-more_none (d ∷ p) (c ∷ s) r e (omega arith) in
      rw (still, split_once_at) (rw (split_once_at-more p d s r a' b found, same) refl)
]

-- White space in front is dropped once.
pub trim_start-append : (s r : Text) → trim_start (trim_start s ++ r) ≡ trim_start (s ++ r)
unfolding trim_start
trim_start-append [] r = refl
trim_start-append (c ∷ s) r = ground (arith, trim_start-append s r)

pub trim_start-more :
    (s r t : Text) (c : ℕ) → trim_start s ≡ c ∷ t → trim_start (s ++ r) ≡ (c ∷ t) ++ r
unfolding trim_start
trim_start-more [] r t c h = cc
trim_start-more (d ∷ s) r t c h = ground (arith, trim_start-more s r t c)
