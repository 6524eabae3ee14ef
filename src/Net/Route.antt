-- ===== src/Net/Route.antt =====
-- The default route that is chosen.
use ai_firewall.Prelude.{
  ℕ, ◌≤◌, ◌≡◌, refl, sym, ap, subst, ◌∙◌, ◌&&◌, Option, none, some, List, [], ◌∷◌, ltb, arith,
  Bool-cases, Option-cases, inl, inr, ◌⊎◌, if◌then◌else◌,
}
use ai_firewall.Prelude.Option
use ai_firewall.Text.{Text, codes, text_eq, text_eq_iff, parse_uint}
use ai_firewall.Text.Words.{lines, split_whitespace}
use ai_firewall.Config.Cidr.{u32_max}
use ai_firewall.Net.{
  zeros, DefaultRoute, Line, skipped, found, out_of_bounds, parse_fields, parse_hex, swap_bytes,
  least, min_by_metric, candidates, skip_first, parse_default_route,
}

-- The route is one of the list.
abbrev Among : DefaultRoute → List DefaultRoute → Type 0
Among r [] = ⊥
Among r (s ∷ ss) = (r ≡ s) ⊎ Among r ss

-- The better of two.
abbrev better : DefaultRoute → DefaultRoute → DefaultRoute
better best r = if ltb r.metric best.metric then r else best

better-le :
    (best r : DefaultRoute)
    → ((better best r).metric ≤ best.metric) × ((better best r).metric ≤ r.metric)
better-le best r = ground arith

better-or : (best r : DefaultRoute) → (better best r ≡ best) ⊎ (better best r ≡ r)
better-or best r = elim (Bool-cases (ltb r.metric best.metric)) [
  | inl b ↦ inr (rw b)
  | inr b ↦ inl (rw b)
]

least-le : (best : DefaultRoute) (rs : List DefaultRoute) → (least best rs).metric ≤ best.metric
unfolding least
least-le best [] = omega arith
least-le best (r ∷ rs) = omega (arith, least-le (better best r) rs, better-le best r)

least-min :
    (best : DefaultRoute) (rs : List DefaultRoute) (s : DefaultRoute)
    → Among s rs
    → (least best rs).metric ≤ s.metric
unfolding least
least-min best [] s h = elim h [ ]
least-min best (r ∷ rs) s (inl e) =
    rw e (omega (arith, least-le (better best r) rs, better-le best r))
least-min best (r ∷ rs) s (inr m) = least-min (better best r) rs s m

least-Among :
    (best : DefaultRoute) (rs : List DefaultRoute)
    → (least best rs ≡ best) ⊎ Among (least best rs) rs
unfolding least
least-Among best [] = inl refl
least-Among best (r ∷ rs) = elim (least-Among (better best r) rs) [
  | inr m ↦ inr (inr m)
  | inl e ↦ elim (better-or best r) [ inl b ↦ inl (e ∙ b) | inr b ↦ inr (inl (e ∙ b)) ]
]

-- The fields of a line of the table are those of a default route: the destination and the mask are
-- 0, the gateway is a number of base 16 in network order, and the metric a decimal one.
abbrev pub FieldsOf : List Text → DefaultRoute → Type 0
FieldsOf (iface ∷ destination ∷ gw ∷ flags ∷ refs ∷ uses ∷ metric ∷ mask ∷ rest) r =
    (iface ≡ r.iface)
    × (destination ≡ codes "00000000")
    × (mask ≡ codes "00000000")
    × (Option.map swap_bytes (parse_hex gw) ≡ some r.gateway)
    × (parse_uint u32_max metric ≡ some r.metric)
FieldsOf _ r = ⊥

-- A default route that the lines list.
abbrev pub Lists : List Text → DefaultRoute → Type 0
Lists [] r = ⊥
Lists (l ∷ ls) r = FieldsOf (split_whitespace l) r ⊎ Lists ls r

-- The line ends with its seventh field, though its destination is 0.
abbrev pub Short : List Text → Type 0
Short (iface ∷ destination ∷ gw ∷ flags ∷ refs ∷ uses ∷ metric ∷ []) =
    destination ≡ codes "00000000"
Short _ = ⊥

abbrev pub HasShort : List Text → Type 0
HasShort [] = ⊥
HasShort (l ∷ ls) = Short (split_whitespace l) ⊎ HasShort ls

-- A default route that is listed has this interface and this gateway, and the least metric of all.
pub record IsBest (ls : List Text) (iface : Text) (gw : ℕ) : Type 0 where
  pub best : DefaultRoute
  pub listed : Lists ls best
  pub named : (best.iface ≡ iface) × (best.gateway ≡ gw)
  pub least_metric : (s : DefaultRoute) → Lists ls s → best.metric ≤ s.metric

-- The right answer for the lines: the panic, that there is no default route, or the best one.
abbrev pub Answers : List Text → Option (Option (Text × ℕ)) → Type 0
Answers ls none = HasShort ls
Answers ls (some none) = (s : DefaultRoute) → Lists ls s → ⊥
Answers ls (some (some (iface, gw))) = IsBest ls iface gw

-- What a line was read as fits its fields.
abbrev Reads : List Text → Line → Type 0
Reads fs skipped = (s : DefaultRoute) → FieldsOf fs s → ⊥
Reads fs (found r) = FieldsOf fs r × ((s : DefaultRoute) → FieldsOf fs s → r.metric ≡ s.metric)
Reads fs out_of_bounds = Short fs

parse_fields-Reads : (fs : List Text) → Reads fs (parse_fields fs)
unfolding parse_fields
parse_fields-Reads [] = λ s h. h
parse_fields-Reads (a ∷ []) = λ s h. h
parse_fields-Reads (a ∷ b ∷ []) = λ s h. h
parse_fields-Reads (a ∷ b ∷ c ∷ []) = λ s h. h
parse_fields-Reads (a ∷ b ∷ c ∷ d ∷ []) = λ s h. h
parse_fields-Reads (a ∷ b ∷ c ∷ d ∷ e ∷ []) = λ s h. h
parse_fields-Reads (a ∷ b ∷ c ∷ d ∷ e ∷ f ∷ []) = λ s h. h
parse_fields-Reads (a ∷ b ∷ c ∷ d ∷ e ∷ f ∷ g ∷ []) = elim (Bool-cases (text_eq b zeros)) [
  | inl zero ↦ rw zero ((text_eq_iff b zeros).0 zero)
  | inr other ↦ rw other (λ s h. h)
]
parse_fields-Reads (a ∷ b ∷ c ∷ d ∷ e ∷ f ∷ g ∷ m ∷ rest) =
    elim (Bool-cases (text_eq b zeros && text_eq m zeros)) [
      | inr other ↦ rw other (λ s h.
          let zb = (text_eq_iff b zeros).1 h.1 in
          let zm = (text_eq_iff m zeros).1 h.2 in ground arith)
      | inl both ↦
          let zb : b ≡ zeros = (text_eq_iff b zeros).0 (ground arith) in
          let zm : m ≡ zeros = (text_eq_iff m zeros).0 (ground arith) in
          elim (Option-cases (parse_hex c)) [
            | inl bad ↦ rw (both, bad) (λ s h. no_number (rw bad at h.3))
            | inr (n, good) ↦ elim (Option-cases (parse_uint u32_max g)) [
              | inl bad ↦ rw (both, good, bad) (λ s h. no_number (rw bad at h.4))
              | inr (k, fine) ↦
                  rw (both, good, fine)
                    ((refl, zb, zm, rw good refl, fine), λ s h. same_number (rw fine at h.4))
            ]
          ]
    ]
  where
    no_number : {n : ℕ} → none ≡ some n → ⊥
    no_number h = ground arith

    same_number : {n k : ℕ} → some k ≡ some n → k ≡ n
    same_number h = ground arith

-- The candidates are the default routes of the lines, or the panic of one of them.
abbrev Covers : List Text → Option (List DefaultRoute) → Type 0
Covers ls none = HasShort ls
Covers ls (some rs) =
    ((r : DefaultRoute) → Among r rs → Lists ls r)
    × ((s : DefaultRoute) → Lists ls s → (r : DefaultRoute) × Among r rs × (r.metric ≡ s.metric))

abbrev one_more : Line → Option (List DefaultRoute) → Option (List DefaultRoute)
one_more o c = elim o [ skipped ↦ c | found r ↦ Option.map (λ rs. r ∷ rs) c | out_of_bounds ↦ none ]

one_more-Covers :
    (l : Text) (ls : List Text) (o : Line) (c : Option (List DefaultRoute))
    → Reads (split_whitespace l) o
    → Covers ls c
    → Covers (l ∷ ls) (one_more o c)
one_more-Covers l ls skipped none reads covers = inr covers
one_more-Covers l ls skipped (some rs) reads covers = (
  λ r m. inr (covers.0 r m),
  λ s h. elim h [ inl here ↦ absurd (reads s here) | inr there ↦ covers.1 s there ],
)
one_more-Covers l ls (found r) none reads covers = inr covers
one_more-Covers l ls (found r) (some rs) reads covers = (
  λ q m. elim m [
    | inl same ↦ inl (subst (FieldsOf (split_whitespace l)) (sym same) reads.0)
    | inr later ↦ inr (covers.0 q later)
  ],
  λ s h. elim h [
    | inl here ↦ (r, inl refl, reads.1 s here)
    | inr there ↦ let (q, among, same) = covers.1 s there in (q, inr among, same)
  ],
)
one_more-Covers l ls out_of_bounds c reads covers = inl reads

candidates-Covers : (ls : List Text) → Covers ls (candidates ls)
unfolding candidates
candidates-Covers [] = (λ r m. m, λ s h. absurd h)
candidates-Covers (l ∷ ls) =
    one_more-Covers l ls (parse_fields (split_whitespace l)) (candidates ls)
      (parse_fields-Reads (split_whitespace l)) (candidates-Covers ls)

abbrev answer : Option (List DefaultRoute) → Option (Option (Text × ℕ))
answer c = Option.map (λ rs. Option.map (λ r. (r.iface, r.gateway)) (min_by_metric rs)) c

answer-Answers :
    (ls : List Text) (c : Option (List DefaultRoute)) → Covers ls c → Answers ls (answer c)
unfolding min_by_metric
answer-Answers ls none covers = covers
answer-Answers ls (some []) covers = λ s h. (covers.1 s h).1
answer-Answers ls (some (r ∷ rs)) covers = record {
  best = least r rs;
  listed = covers.0 (least r rs) (least-Among r rs);
  named = (refl, refl);
  least_metric = λ s h.
      let (q, among, same) = covers.1 s h in
      elim among [
        | inl first ↦ omega (arith, least-le r rs, ap (λ x. x.metric) first, same)
        | inr later ↦ omega (arith, least-min r rs q later, same)
      ];
}

-- What the daemon makes of the routing table, whose first line is a head. It finds an uplink, and
-- then the table has a default route (a destination and a mask of 0, a gateway and a metric that
-- parse) with that interface and that gateway, and no default route of the table has a lesser
-- metric; or it finds none, and then the table has no default route; or it panics, and then a line
-- whose destination is 0 has exactly seven fields.
pub parse_default_route-Answers :
    (text : Text) → Answers (skip_first (lines text)) (parse_default_route text)
unfolding parse_default_route
parse_default_route-Answers text =
    answer-Answers (skip_first (lines text)) (candidates (skip_first (lines text)))
      (candidates-Covers (skip_first (lines text)))
