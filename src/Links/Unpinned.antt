-- ===== src/Links/Unpinned.antt =====
-- What is pinned after the links of some interfaces are removed.
use ai_firewall.Prelude.{
  ◌≡◌, refl, ap, ◌∙◌, Bool, false, not, ◌&&◌, none, List, [], ◌∷◌, ◌++◌, any, retain, length, arith,
  Bool-cases, Option-cases, inl, inr,
}
use ai_firewall.Text.{Text, codes, text_eq, text_eq_iff}
use ai_firewall.Text.Words.{strip_prefix, strip_prefix_eq}
use ai_firewall.Links.{
  Files, link_name, unpin, link_ifaces, pinned_ifaces, unpin_each, unpin_all, if_link,
}

abbrev named : Text → List Text → Bool
named i is = any (λ t. text_eq t i) is

abbrev prefix : Text
prefix = codes "link-xdp-"

xdp_name : (i : Text) → prefix ++ i ≡ link_name (codes "xdp") i
unfolding link_name
xdp_name i = refl

name_eq : (i j : Text) → text_eq (prefix ++ i) (link_name (codes "xdp") j) ≡ text_eq i j
unfolding link_name
name_eq i j = refl

tc_name : (j : Text) → strip_prefix prefix (link_name (codes "tc") j) ≡ none
unfolding link_name strip_prefix
tc_name j = refl

-- Removing the name of an egress link changes no interface of the filter.
ifaces-without_tc :
    (j : Text) (ns : List Text)
    → link_ifaces (retain (λ n. not (text_eq n (link_name (codes "tc") j))) ns) ≡ link_ifaces ns
unfolding link_ifaces
ifaces-without_tc j [] = refl
ifaces-without_tc j (n ∷ ns) = elim (Bool-cases (text_eq n (link_name (codes "tc") j))) [
  | inl same ↦
      let at_n : strip_prefix prefix n ≡ none =
        ap (strip_prefix prefix) ((text_eq_iff n _).0 same) ∙ tc_name j in
      rw (same, at_n) (ifaces-without_tc j ns)
  | inr other ↦ rw other (ap (if_link (strip_prefix prefix n)) (ifaces-without_tc j ns))
]

ifaces-without_xdp :
    (i j : Text) (ns : List Text)
    → named i (link_ifaces (retain (λ n. not (text_eq n (link_name (codes "xdp") j))) ns))
      ≡ (not (text_eq j i) && named i (link_ifaces ns))
unfolding link_ifaces
ifaces-without_xdp i j [] = ground arith
ifaces-without_xdp i j (n ∷ ns) = elim (Option-cases (strip_prefix prefix n)) [
  | inl not_link ↦ ground (arith, ifaces-without_xdp i j ns)
  | inr (t, link) ↦
      let name : text_eq n (link_name (codes "xdp") j) ≡ text_eq t j =
        ap (λ m. text_eq m (link_name (codes "xdp") j)) (strip_prefix_eq prefix n t link)
        ∙ name_eq t j in
      ground (arith, ifaces-without_xdp i j ns, text_eq_iff t j, text_eq_iff j i, text_eq_iff t i)
]

named-unpin :
    (i j : Text) (w : Files)
    → named i (pinned_ifaces (unpin (codes "tc") j (unpin (codes "xdp") j w)))
      ≡ (not (text_eq j i) && named i (pinned_ifaces w))
unfolding pinned_ifaces unpin
named-unpin i j w =
    ap (named i)
      (ifaces-without_tc j (retain (λ n. not (text_eq n (link_name (codes "xdp") j))) w.pins))
    ∙ ifaces-without_xdp i j w.pins

named-unpin_each :
    (i : Text) (is : List Text) (w : Files)
    → named i (pinned_ifaces (unpin_each is w)) ≡ (not (named i is) && named i (pinned_ifaces w))
unfolding unpin_each
named-unpin_each i [] w = refl
named-unpin_each i (j ∷ is) w = ground (
  arith,
  named-unpin i j w,
  named-unpin_each i is (unpin (codes "tc") j (unpin (codes "xdp") j w)),
)

none_named : (is : List Text) → ((i : Text) → named i is ≡ false) → is ≡ []
none_named [] h = refl
none_named (j ∷ is) h = ground (arith, h j, (text_eq_iff j j).1 refl)

-- `ai-firewall off` leaves no interface with a pinned filter, and reports how many there were.
pub unpin_all_stops :
    (w : Files)
    → (pinned_ifaces (unpin_all w).0 ≡ []) × ((unpin_all w).1 ≡ length (pinned_ifaces w))
unfolding unpin_all
unpin_all_stops w = (
  none_named (pinned_ifaces (unpin_each (pinned_ifaces w) w))
      (λ i. ground (arith, named-unpin_each i (pinned_ifaces w) w)),
  refl,
)
