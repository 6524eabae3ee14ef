-- ===== src/Feeds/Spared.antt =====
-- What the parser of blocklists in ai-firewall/src/feeds.rs returns, against the reserved and the
-- protected networks.
use ai_firewall.Prelude.{
  ◌≤◌, ◌≡◌, Bool-cases, Option-cases, inl, inr, true, false, ◌&&◌, ◌||◌, List, [], ◌∷◌, ◌++◌, any,
  ltb, leb, ◌==◌, arith,
}
use ai_firewall.Text.{Text}
use ai_firewall.Config.Cidr.{Cidr, leading_ones, overlaps}
use ai_firewall.Config.Cidr
use ai_firewall.Config.Cidr.Overlap.{IsNetwork, Meet, overlaps-Meet, parse-IsNetwork}
use ai_firewall.Detector.Bounds.{All}
use ai_firewall.Feeds.{
  parse, parse_each, reserved_texts, wanted, keep_parsed, keep_tokens, keep_lines, dots, tokens,
  lines, insert_key, sort_keys, dedup_keys,
}

module _ (P : Cidr → Type 0) where
  pub All-append : (xs ys : List Cidr) → All P xs → All P ys → All P (xs ++ ys)
  All-append [] ys h k = k
  All-append (x ∷ xs) ys h k = (h.0, All-append xs ys h.1 k)

  All-insert_key : (a : Cidr) (xs : List Cidr) → P a → All P xs → All P (insert_key a xs)
  unfolding insert_key
  All-insert_key a [] p h = (p, tt)
  All-insert_key a (x ∷ xs) p h =
      elim (Bool-cases (ltb a.net x.net || a.net == x.net && leb a.mask x.mask)) [
        | inl le ↦ rw le (p, h)
        | inr gt ↦ rw gt (h.0, All-insert_key a xs p h.1)
      ]

  pub All-sort_keys : (xs : List Cidr) → All P xs → All P (sort_keys xs)
  unfolding sort_keys
  All-sort_keys [] h = tt
  All-sort_keys (x ∷ xs) h = All-insert_key x (sort_keys xs) h.0 (All-sort_keys xs h.1)

  pub All-dedup_keys : (xs : List Cidr) → All P xs → All P (dedup_keys xs)
  unfolding dedup_keys
  All-dedup_keys [] h = tt
  All-dedup_keys (x ∷ []) h = h
  All-dedup_keys (x ∷ y ∷ xs) h = elim (Bool-cases (x.net == y.net && x.mask == y.mask)) [
    | inl same ↦ rw same (All-dedup_keys (y ∷ xs) h.1)
    | inr other ↦ rw other (h.0, All-dedup_keys (y ∷ xs) h.1)
  ]

-- A network that the parser may keep.
abbrev Kept : List Cidr → Cidr → Type 0
Kept spared c = IsNetwork c × (wanted spared c ≡ true)

keep_tokens-Kept : (spared : List Cidr) (ts : List Text) → All (Kept spared) (keep_tokens spared ts)
unfolding keep_tokens keep_parsed
keep_tokens-Kept spared [] = tt
keep_tokens-Kept spared (t ∷ ts) =
    let rest = keep_tokens-Kept spared ts in
    elim (Bool-cases (dots t == 3)) [
      | inr other ↦ rw other rest
      | inl dotted ↦ elim (Option-cases (Cidr.parse t)) [
        | inl bad ↦ rw (dotted, bad) rest
        | inr (c, good) ↦ elim (Bool-cases (wanted spared c)) [
          | inl fit ↦ rw (dotted, good, fit) ((parse-IsNetwork t c good, fit), rest)
          | inr unfit ↦ rw (dotted, good, unfit) rest
        ]
      ]
    ]

keep_lines-Kept : (spared : List Cidr) (ls : List Text) → All (Kept spared) (keep_lines spared ls)
unfolding keep_lines
keep_lines-Kept spared [] = tt
keep_lines-Kept spared (l ∷ ls) =
    All-append (Kept spared) (keep_tokens spared (tokens l)) (keep_lines spared ls)
      (keep_tokens-Kept spared (tokens l)) (keep_lines-Kept spared ls)

-- The network shares no address with any of the list.
abbrev pub Clear : List Cidr → Cidr → Type 0
Clear [] c = Unit {0}
Clear (r ∷ rs) c = (Meet r c → ⊥) × Clear rs c

clear :
    (rs : List Cidr) (c : Cidr)
    → All IsNetwork rs
    → IsNetwork c
    → any (λ r. overlaps r c) rs ≡ false
    → Clear rs c
clear [] c rn n h = tt
clear (r ∷ rs) c rn n h =
    (λ meet. ground (arith, (overlaps-Meet r c rn.0 n).1 meet), clear rs c rn.1 n (ground arith))

Kept-Clear :
    (spared : List Cidr)
    → All IsNetwork spared
    → (c : Cidr) → Kept spared c
    → (8 ≤ leading_ones c.mask) × Clear spared c
unfolding wanted
Kept-Clear spared rn c (n, w) = (ground arith, clear spared c rn n (ground arith))

parse_each-IsNetwork : (ts : List Text) → All IsNetwork (parse_each ts)
unfolding parse_each
parse_each-IsNetwork [] = tt
parse_each-IsNetwork (t ∷ ts) = elim (Option-cases (Cidr.parse t)) [
  | inl bad ↦ rw (bad, parse_each) (parse_each-IsNetwork ts)
  | inr (c, good) ↦ rw (good, parse_each) (parse-IsNetwork t c good, parse_each-IsNetwork ts)
]

All-map : {P Q : Cidr → Type 0} → ((c : Cidr) → P c → Q c) → (xs : List Cidr) → All P xs → All Q xs
All-map f [] h = tt
All-map f (x ∷ xs) h = (f x h.0, All-map f xs h.1)

-- Whatever text a feed serves, every network that `parse` returns is a /8 or narrower, and shares no
-- address with a reserved network, nor with a protected one. Assumed: the protected networks are
-- as `Cidr::parse` makes them.
pub parse-Clear :
    (text : Text) (protected : List Cidr)
    → All IsNetwork protected
    → All
        (λ c. (8 ≤ leading_ones c.mask) × Clear (parse_each reserved_texts ++ protected) c)
        (parse text protected)
unfolding parse
parse-Clear text protected networks =
    let spared = parse_each reserved_texts ++ protected in
    let all =
      All-append IsNetwork (parse_each reserved_texts) protected
        (parse_each-IsNetwork reserved_texts) networks in
    let kept = keep_lines spared (lines text) in
    let ok = keep_lines-Kept spared (lines text) in
    All-map (Kept-Clear spared all) (dedup_keys (sort_keys kept))
      (All-dedup_keys (Kept spared) (sort_keys kept) (All-sort_keys (Kept spared) kept ok))
