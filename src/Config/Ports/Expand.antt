-- ===== src/Config/Ports/Expand.antt =====
-- `expand` (ai-firewall/src/config.rs) against the ports that its specifications cover.
use ai_firewall.Prelude.{
  ℕ, zero, suc, ◌+◌, ◌-◌, ◌≤◌, ◌<◌, ◌≡◌, refl, ◌∙◌, ap, subst, ◌↔◌, ◌⊎◌, inl, inr, true, ◌||◌,
  Option, none, some, List, [], ◌∷◌, ◌++◌, contains, ◌==◌, arith, Option-cases, or_iff, Bool-cases,
  ==_iff, sym,
}
use mathlib.Core.Option.{some-injective}
use ai_firewall.Text.{trim, split_once, parse_uint}
use ai_firewall.Config.Cidr.{u16_max}
use ai_firewall.Config.Ports.{
  PortSpec, one, text, unwrap_pair, check_range, ports, range_from, range_of, collect,
  insert_sorted, sort, dedup, expand,
}

-- The port lies in the range.
abbrev pub InRange : ℕ → Option (ℕ × ℕ) → Type 0
InRange p none = ⊥
InRange p (some (a, b)) = (a ≤ p) × (p ≤ b)

abbrev pub Covers : ℕ → List PortSpec → Type 0
Covers p [] = ⊥
Covers p (s ∷ specs) = InRange p (ports s) ⊎ Covers p specs

abbrev pub Ascending : List ℕ → Type 0
Ascending [] = Unit {0}
Ascending (x ∷ []) = Unit {0}
Ascending (x ∷ y ∷ xs) = (x < y) × Ascending (y ∷ xs)

abbrev Sorted : List ℕ → Type 0
Sorted [] = Unit {0}
Sorted (x ∷ []) = Unit {0}
Sorted (x ∷ y ∷ xs) = (x ≤ y) × Sorted (y ∷ xs)

pub contains-append :
    (p : ℕ) (xs ys : List ℕ) → contains p (xs ++ ys) ≡ (contains p xs || contains p ys)
contains-append p [] ys = refl
contains-append p (x ∷ xs) ys = ground (arith, contains-append p xs ys)

contains-insert_sorted :
    (p a : ℕ) (xs : List ℕ) → contains p (insert_sorted a xs) ≡ (a == p || contains p xs)
unfolding insert_sorted
contains-insert_sorted p a [] = refl
contains-insert_sorted p a (x ∷ xs) = ground (arith, contains-insert_sorted p a xs)

contains-sort : (p : ℕ) (xs : List ℕ) → contains p (sort xs) ≡ contains p xs
unfolding sort
contains-sort p [] = refl
contains-sort p (x ∷ xs) = ground (arith, contains-sort p xs, contains-insert_sorted p x (sort xs))

contains-dedup : (p : ℕ) (xs : List ℕ) → contains p (dedup xs) ≡ contains p xs
unfolding dedup
contains-dedup p [] = refl
contains-dedup p (x ∷ []) = refl
contains-dedup p (x ∷ y ∷ xs) = ground (arith, contains-dedup p (y ∷ xs))

contains-range_from : (p a n : ℕ) → (contains p (range_from a n) ≡ true) ↔ ((a ≤ p) × (p < a + n))
unfolding range_from
contains-range_from p a zero = ground arith
contains-range_from p a (suc n) = ground (arith, contains-range_from p (suc a) n)

pub contains-range_of :
    (p a b : ℕ) → a ≤ b → (contains p (range_of (a, b)) ≡ true) ↔ ((a ≤ p) × (p ≤ b))
unfolding range_of
contains-range_of p a b h = ground (arith, contains-range_from p a (suc b - a))

-- The first and the last port of a range that passes the checks.
check_range_ordered :
    (x y : Option ℕ) (a b : ℕ)
    → check_range x y ≡ some (a, b)
    → (0 < a) × (a ≤ b) × (y ≡ some b) × (b < a + 4096)
unfolding check_range
check_range_ordered none y a b h = cc
check_range_ordered (some m) none a b h = cc
check_range_ordered (some m) (some n) a b h = ground arith

-- A specification that is accepted names at least one port and at most 4096, from 1 on.
pub ports_ordered :
    (s : PortSpec) (a b : ℕ) → ports s ≡ some (a, b) → (0 < a) × (a ≤ b) × (b < a + 4096)
unfolding ports
ports_ordered (one p) a b h = ground arith
ports_ordered (text t) a b h =
    let (m, n) = unwrap_pair (split_once b'-' t) t in
    let c = check_range_ordered (parse_uint u16_max (trim m)) (parse_uint u16_max (trim n)) a b h in
    (c.0, c.1, c.3)

contains-collect :
    (p : ℕ) (specs : List PortSpec) (out : List ℕ)
    → collect specs ≡ some out
    → (contains p out ≡ true) ↔ Covers p specs
unfolding collect
contains-collect p [] out e =
    subst (λ o. (contains p o ≡ true) ↔ Covers p []) (some-injective [] out e)
      ((λ h. cc), (λ h. absurd h))
contains-collect p (s ∷ specs) out e = elim (Option-cases (ports s)) [
  | inl bad ↦ absurd (ground arith)
  | inr ((a, b), good) ↦ elim (Option-cases (collect specs)) [
    | inl worse ↦ absurd (ground arith)
    | inr (rest, fine) ↦
        let shape : out ≡ range_of (a, b) ++ rest = ground arith in
        let ih = contains-collect p specs rest fine in
        let here = contains-range_of p a b (ports_ordered s a b good).1 in
        rw (shape, good, contains-append p (range_of (a, b)) rest)
          (or_iff (contains p (range_of (a, b))) (contains p rest) here ih)
  ]
]

insert_sorted-Sorted : (a : ℕ) (xs : List ℕ) → Sorted xs → Sorted (insert_sorted a xs)
unfolding insert_sorted
insert_sorted-Sorted a [] h = tt
insert_sorted-Sorted a (x ∷ []) h = ground arith
insert_sorted-Sorted a (x ∷ y ∷ xs) h = ground (arith, insert_sorted-Sorted a (y ∷ xs) h.1)

sort-Sorted : (xs : List ℕ) → Sorted (sort xs)
unfolding sort
sort-Sorted [] = tt
sort-Sorted (x ∷ xs) = insert_sorted-Sorted x (sort xs) (sort-Sorted xs)

-- What `dedup` starts with.
dedup_head : (x : ℕ) (xs : List ℕ) → (ys : List ℕ) × (dedup (x ∷ xs) ≡ x ∷ ys)
unfolding dedup
dedup_head x [] = ([], refl)
dedup_head x (y ∷ xs) = elim (Bool-cases (x == y)) [
  | inl same ↦
      let (ys, e) = dedup_head y xs in
      (ys, rw (same, dedup) (e ∙ ap (λ z. z ∷ ys) (sym ((==_iff x y).0 same))))
  | inr other ↦ (dedup (y ∷ xs), rw (other, dedup))
]

dedup-Ascending : (xs : List ℕ) → Sorted xs → Ascending (dedup xs)
unfolding dedup
dedup-Ascending [] h = tt
dedup-Ascending (x ∷ []) h = tt
dedup-Ascending (x ∷ y ∷ xs) h =
    let ih = dedup-Ascending (y ∷ xs) h.1 in
    let (ys, e) = dedup_head y xs in
    elim (Bool-cases (x == y)) [
      | inl same ↦ rw (same, dedup) ih
      | inr other ↦ rw (other, dedup) (rw e (ground arith, rw e at ih))
    ]

-- `expand` returns each port of the specifications once, in ascending order, and no other: a port
-- is in the result exactly when one of the specifications covers it.
pub expand-Covers :
    (specs : List PortSpec) (out : List ℕ)
    → expand specs ≡ some out
    → Ascending out × ((p : ℕ) → (contains p out ≡ true) ↔ Covers p specs)
unfolding expand
expand-Covers specs out e = elim (Option-cases (collect specs)) [
  | inl bad ↦ absurd (ground arith)
  | inr (all, good) ↦
      let shape : dedup (sort all) ≡ out = ground arith in
      subst (λ o. Ascending o × ((p : ℕ) → (contains p o ≡ true) ↔ Covers p specs)) shape
        (
          dedup-Ascending (sort all) (sort-Sorted all),
          λ p.
              rw (contains-dedup p (sort all), contains-sort p all)
                (contains-collect p specs all good),
        )
]
