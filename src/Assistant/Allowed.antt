-- ===== src/Assistant/Allowed.antt =====
-- What a model's reply can propose.
use ai_firewall.Prelude.{
  ℕ, ◌≤◌, ◌<◌, ◌≡◌, refl, sym, subst, Bool, true, false, ◌||◌, Option, none, some, List, [], ◌∷◌,
  ◌++◌, any, ◌==◌, arith, is_some, ◌⊎◌, inl, inr, Bool-cases, Option-cases, if◌then◌else◌,
}
use ai_firewall.Prelude.Option
use ai_firewall.Detector.Bounds.{All}
use ai_firewall.Text.{Text, codes, trim, text_eq, text_eq_iff, parse_uint}
use ai_firewall.Text.Bounds.{parse_uint-le}
use ai_firewall.Text.Words.{strip_prefix, split_whitespace, trim_matches, lines}
use ai_firewall.Addr.{Src, from_str}
use ai_firewall.Doctor.{Fix, fixes, find_fix, fix_summary, summary_of}
use ai_firewall.SelfTest.{tests, is_test}
use ai_firewall.Assistant.{
  bare, of_rest, Action, fix, open_port, close_port, unban, test, tcp, udp, u16_max, action_eq,
  proto_of, find_test, parse_words, parse, keep_new, of_line, of_lines, parse_actions, port_action,
  positive, fix_action,
}

abbrev pub IsProto : Text → Type 0
IsProto p = (p ≡ tcp) ⊎ (p ≡ udp)

-- A fix of the doctor's list, a port of one of two protocols, the lifting of a ban, a known test.
abbrev pub IsAllowed : Action → Type 0
IsAllowed (fix id) = is_some (fix_summary id) ≡ true
IsAllowed (open_port p n) = IsProto p × (0 < n) × (n ≤ 65535)
IsAllowed (close_port p n) = IsProto p × (n ≤ 65535)
IsAllowed (unban src) = Unit {0}
IsAllowed (test name) = is_test name ≡ true

IsAllowed-of : (b a : Action) → IsAllowed b → some b ≡ some a → IsAllowed a
IsAllowed-of b a k h = let e : b ≡ a = cc in subst IsAllowed e k

find_fix-id : (id : Text) (fs : List Fix) (f : Fix) → find_fix id fs ≡ some f → f.id ≡ id
unfolding find_fix
find_fix-id id [] f h = cc
find_fix-id id (g ∷ gs) f h = ground (arith, find_fix-id id gs f, text_eq_iff g.id id)

found-summary :
    (id : Text) (fs : List Fix) (f : Fix)
    → find_fix id fs ≡ some f
    → is_some (summary_of (find_fix f.id fs)) ≡ true
found-summary id fs f e =
    subst (λ x. is_some (summary_of (find_fix x fs)) ≡ true) (sym (find_fix-id id fs f e))
      (rw e refl)

fix_known : (id : Text) (f : Fix) → find_fix id fixes ≡ some f → IsAllowed (fix f.id)
unfolding fix_summary
fix_known id f e = found-summary id fixes f e

fix-IsAllowed : (id : Text) (a : Action) → fix_action (find_fix id fixes) ≡ some a → IsAllowed a
fix-IsAllowed id a h = elim (Option-cases (find_fix id fixes)) [
  | inl e ↦ absurd (cc (rw e at h))
  | inr (f, e) ↦ IsAllowed-of (fix f.id) a (fix_known id f e) (rw e at h)
]

find_test-known :
    (name : Text) (ts : List (Text × Text)) (a : Action)
    → find_test name ts ≡ some a
    → (test name ≡ a) × (any (λ t. text_eq t.0 name) ts ≡ true)
unfolding find_test
find_test-known name [] a h = cc
find_test-known name (t ∷ ts) a h = ground (arith, find_test-known name ts a, text_eq_iff t.0 name)

test-IsAllowed : (name : Text) (a : Action) → find_test name tests ≡ some a → IsAllowed a
test-IsAllowed name a h =
    let (same, known) = find_test-known name tests a h in
    let listed : is_test name ≡ true = unfold is_test in (ground arith) in
    subst IsAllowed same listed

proto_of-IsProto : (w p : Text) → proto_of w ≡ some p → IsProto p
unfolding proto_of
proto_of-IsProto w p h = ground arith

port-IsAllowed :
    (make : Text → ℕ → Action) (w : Text) (port : Option ℕ) (a : Action)
    → ((p : Text) (n : ℕ) → IsProto p → port ≡ some n → IsAllowed (make p n))
    → port_action make (proto_of w) port ≡ some a
    → IsAllowed a
port-IsAllowed make w port a ok h = elim (Option-cases (proto_of w)) [
  | inl e ↦ absurd (cc (rw e at h))
  | inr (p, e) ↦ elim (Option-cases port) [
    | inl f ↦ absurd (cc (rw (e, f) at h))
    | inr (n, f) ↦ IsAllowed-of (make p n) a (ok p n (proto_of-IsProto w p e) f) (rw (e, f) at h)
  ]
]

open_range :
    (port : Text) (n : ℕ) → positive (parse_uint u16_max port) ≡ some n → (0 < n) × (n ≤ 65535)
open_range port n h = elim (Option-cases (parse_uint u16_max port)) [
  | inl e ↦ absurd (cc (rw e at h))
  | inr (m, e) ↦ ground (arith, parse_uint-le u16_max m port e)
]

lifted-IsAllowed : (o : Option Src) (a : Action) → Option.map unban o ≡ some a → IsAllowed a
lifted-IsAllowed none a h = cc
lifted-IsAllowed (some src) a h = IsAllowed-of (unban src) a tt h

named_test :
    (x : Text) (a : Action)
    → (if text_eq x (codes "all") then some (test (codes "all")) else find_test x tests) ≡ some a
    → IsAllowed a
unfolding is_test
named_test x a h = elim (Bool-cases (text_eq x (codes "all"))) [
  | inl e ↦ IsAllowed-of (test (codes "all")) a refl (rw e at h)
  | inr e ↦ test-IsAllowed x a (rw e at h)
]

-- No action stands twice in the list.
abbrev pub IsDistinct : List Action → Type 0
IsDistinct [] = Unit {0}
IsDistinct (a ∷ rest) = (any (λ b. action_eq a b) rest ≡ false) × IsDistinct rest

pub record IsProposal (actions : List Action) : Type 0 where
  pub allowed : All IsAllowed actions
  pub distinct : IsDistinct actions

All-snoc :
    (as' : List Action) (a : Action)
    → All IsAllowed as'
    → IsAllowed a
    → All IsAllowed (as' ++ (a ∷ []))
All-snoc [] a h k = (k, tt)
All-snoc (b ∷ bs) a h k = (h.0, All-snoc bs a h.1 k)

any-snoc :
    (p : Action → Bool) (bs : List Action) (a : Action) → any p (bs ++ (a ∷ [])) ≡ (any p bs || p a)
any-snoc p [] a = ground arith
any-snoc p (b ∷ bs) a = ground (arith, any-snoc p bs a)

IsDistinct-snoc :
    (bs : List Action) (a : Action)
    → IsDistinct bs
    → any (λ b. action_eq b a) bs ≡ false
    → IsDistinct (bs ++ (a ∷ []))
IsDistinct-snoc [] a h e = (refl, tt)
IsDistinct-snoc (b ∷ bs) a h e = (
  rw (any-snoc (λ c. action_eq b c) bs a) (ground (arith, h.0)),
  IsDistinct-snoc bs a h.1 (ground arith),
)

module _ (parse_ipv6 : Text → Option ℕ) (print_ipv6 : ℕ → Text) where
  two_words-IsAllowed :
      (w x : Text) (a : Action)
      → parse_words parse_ipv6 print_ipv6 (w ∷ x ∷ []) ≡ some a
      → IsAllowed a
  unfolding parse_words is_test
  two_words-IsAllowed w x a h = elim (Bool-cases (text_eq w (codes "fix"))) [
    | inl e ↦ fix-IsAllowed x a (rw e at h)
    | inr e ↦ elim (Bool-cases (text_eq w (codes "unban"))) [
      | inl f ↦ lifted-IsAllowed (from_str parse_ipv6 print_ipv6 x) a (rw (e, f) at h)
      | inr f ↦ elim (Bool-cases (text_eq w (codes "test"))) [
        | inl g ↦ named_test x a (rw (e, f, g) at h)
        | inr g ↦ absurd (cc (rw (e, f, g) at h))
      ]
    ]
  ]

  three_words-IsAllowed :
      (w p port : Text) (a : Action)
      → parse_words parse_ipv6 print_ipv6 (w ∷ p ∷ port ∷ []) ≡ some a
      → IsAllowed a
  unfolding parse_words
  three_words-IsAllowed w p port a h = elim (Bool-cases (text_eq w (codes "open"))) [
    | inl e ↦
        port-IsAllowed open_port p (positive (parse_uint u16_max port)) a
          (λ q n known r. let (low, high) = open_range port n r in (known, low, high)) (rw e at h)
    | inr e ↦ elim (Bool-cases (text_eq w (codes "close"))) [
      | inl f ↦
          port-IsAllowed close_port p (parse_uint u16_max port) a
            (λ q n known r. (known, parse_uint-le u16_max n port r)) (rw (e, f) at h)
      | inr f ↦ absurd (cc (rw (e, f) at h))
    ]
  ]

  -- A proposal that is understood at all is on the list.
  pub parse_words-IsAllowed :
      (ws : List Text) (a : Action) → parse_words parse_ipv6 print_ipv6 ws ≡ some a → IsAllowed a
  parse_words-IsAllowed [] a h = unfold parse_words in (cc)
  parse_words-IsAllowed (w ∷ []) a h = unfold parse_words in (cc)
  parse_words-IsAllowed (w ∷ x ∷ []) a h = two_words-IsAllowed w x a h
  parse_words-IsAllowed (w ∷ p ∷ port ∷ []) a h = three_words-IsAllowed w p port a h
  parse_words-IsAllowed (w ∷ p ∷ port ∷ more ∷ rest) a h = unfold parse_words in (cc)

  keep_new-IsProposal :
      (out : List Action) (o : Option Action)
      → IsProposal out
      → ((a : Action) → o ≡ some a → IsAllowed a)
      → IsProposal (keep_new out o)
  keep_new-IsProposal out none p ok = p
  keep_new-IsProposal out (some a) p ok = kept (any (λ b. action_eq b a) out) refl
    where
      kept :
          (known : Bool)
          → any (λ b. action_eq b a) out ≡ known
          → IsProposal (if known then out else out ++ (a ∷ []))
      kept true e = p
      kept false e = record {
        allowed = All-snoc out a p.allowed (ok a refl);
        distinct = IsDistinct-snoc out a p.distinct e;
      }

  of_rest-IsProposal :
      (out : List Action) (rest : Text)
      → IsProposal out
      → IsProposal (of_rest parse_ipv6 print_ipv6 out (some rest))
  unfolding of_rest parse
  of_rest-IsProposal out rest p =
      let words = split_whitespace (trim_matches (λ c. c == b'`') (trim rest)) in
      keep_new-IsProposal out (parse_words parse_ipv6 print_ipv6 words) p
        (λ a. parse_words-IsAllowed words a)

  of_line-IsProposal :
      (out : List Action) (line : Text)
      → IsProposal out
      → IsProposal (of_line parse_ipv6 print_ipv6 out line)
  unfolding of_line parse
  of_line-IsProposal out line p = elim (Option-cases (strip_prefix (codes "ACTION:") (bare line))) [
    | inr (rest, e) ↦ rw (e, of_line) (of_rest-IsProposal out rest p)
    | inl e ↦ elim (Option-cases (strip_prefix (codes "Action:") (bare line))) [
      | inr (rest, f) ↦ rw (e, of_line, f) (of_rest-IsProposal out rest p)
      | inl f ↦ rw (e, of_line, f) p
    ]
  ]

  of_lines-IsProposal :
      (out : List Action) (ls : List Text)
      → IsProposal out
      → IsProposal (of_lines parse_ipv6 print_ipv6 out ls)
  unfolding of_lines
  of_lines-IsProposal out [] p = p
  of_lines-IsProposal out (l ∷ ls) p =
      of_lines-IsProposal (of_line parse_ipv6 print_ipv6 out l) ls (of_line-IsProposal out l p)

  -- Whatever a model replies, every action taken from it is on the fixed list: a fix that the doctor
  -- has, opening a port from 1 to 65535 or closing a port up to 65535 of tcp or udp, lifting a ban,
  -- or a known test; and no action is taken twice.
  pub parse_actions-IsProposal :
      (reply : Text) → IsProposal (parse_actions parse_ipv6 print_ipv6 reply)
  unfolding parse_actions
  parse_actions-IsProposal reply =
      of_lines-IsProposal [] (lines reply) (record { allowed = tt; distinct = tt })
