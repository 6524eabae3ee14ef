-- ===== src/Links/Apart.antt =====
-- What is done to the filter's link leaves the egress program's link alone.
use ai_firewall.Prelude.{
  ℕ, ◌≡◌, refl, ap, ◌∙◌, Bool, true, false, not, ◌&&◌, ◌||◌, List, [], ◌∷◌, any, retain, ◌==◌,
  Bool-cases, Option-cases, inl, inr,
}
use ai_firewall.Prelude.MapLaws.{get-insert, get-remove}
use ai_firewall.Text.{Text, codes, text_eq, text_eq_iff, text_Eq}
use ai_firewall.Links.{
  Files, Answers, link_name, has_pin, read_meta, write_meta, meta_text, unpin, pin_link, fresh_xdp,
  take_over, attach_xdp, retry_busy, is_attached,
}

abbrev xdp : Text
xdp = codes "xdp"

abbrev tc : Text
tc = codes "tc"

names_apart : (i j : Text) → text_eq (link_name xdp i) (link_name tc j) ≡ false
unfolding link_name
names_apart i j = refl

-- The egress program's link of an interface is as before.
pub record IsSameTc (iface : Text) (w w' : Files) : Type 0 where
  pub pin : has_pin tc iface w' ≡ has_pin tc iface w
  pub meta : read_meta tc iface w' ≡ read_meta tc iface w

pins_without :
    (i j : Text) (ns : List Text)
    → any (λ n. text_eq n (link_name tc j)) (retain (λ n. not (text_eq n (link_name xdp i))) ns)
      ≡ any (λ n. text_eq n (link_name tc j)) ns
pins_without i j [] = refl
pins_without i j (n ∷ ns) = elim (Bool-cases (text_eq n (link_name xdp i))) [
  | inl same ↦
      let other : text_eq n (link_name tc j) ≡ false =
        ap (λ m. text_eq m (link_name tc j)) ((text_eq_iff n _).0 same) ∙ names_apart i j in
      rw (same, other) (pins_without i j ns)
  | inr e ↦ rw e (ap (λ b. text_eq n (link_name tc j) || b) (pins_without i j ns))
]

module _ (i iface : Text) where
  unpin-IsSameTc : (w : Files) → IsSameTc iface w (unpin xdp i w)
  unfolding unpin read_meta
  unpin-IsSameTc w = record {
    pin = pins_without i iface w.pins;
    meta =
        rw
          (
            get-remove (link_name xdp i) (link_name tc iface) w.metas,
            names_apart i iface,
            read_meta,
          )
          refl;
  }

  write_meta-IsSameTc :
      (written : Bool) (idx : ℕ) (mode : Text) (w : Files)
      → IsSameTc iface w (write_meta written xdp i idx mode w)
  unfolding write_meta read_meta
  write_meta-IsSameTc false idx mode w = record { pin = refl; meta = refl }
  write_meta-IsSameTc true idx mode w = record {
    pin = refl;
    meta =
        rw
          (
            get-insert (link_name xdp i) (link_name tc iface) (meta_text idx mode) w.metas,
            names_apart i iface,
            read_meta,
          )
          refl;
  }

  same : (w : Files) → IsSameTc iface w w
  same w = record { pin = refl; meta = refl }

  and_then : (w w' w'' : Files) → IsSameTc iface w w' → IsSameTc iface w' w'' → IsSameTc iface w w''
  and_then w w' w'' s t = record { pin = t.pin ∙ s.pin; meta = t.meta ∙ s.meta }

  new_pin-IsSameTc : (w : Files) → IsSameTc iface w (record w { pins = link_name xdp i ∷ w.pins })
  unfolding read_meta
  new_pin-IsSameTc w = record { pin = rw (names_apart i iface) refl; meta = refl }

  pin_link-IsSameTc :
      (k : Answers) (idx : ℕ) (mode : Text) (w : Files)
      → IsSameTc iface w (pin_link k xdp i idx mode w).0
  unfolding pin_link
  pin_link-IsSameTc k idx mode w = elim (Bool-cases (k.take_link && (k.link_fd && k.pin))) [
    | inr e ↦ rw e (same w)
    | inl e ↦
        let pinned : Files = record w { pins = link_name xdp i ∷ w.pins } in
        rw e (
          and_then w pinned (write_meta k.write xdp i idx mode pinned) (new_pin-IsSameTc w)
            (write_meta-IsSameTc k.write idx mode pinned))
  ]

  fresh_xdp-IsSameTc :
      (k : Answers) (idx : ℕ) (w : Files) → IsSameTc iface w (fresh_xdp k i idx w).0
  unfolding fresh_xdp
  fresh_xdp-IsSameTc k idx w = elim (Bool-cases (is_attached (retry_busy k.attach))) [
    | inl a ↦ rw a (pin_link-IsSameTc k idx (codes "native") w)
    | inr a ↦ elim (Bool-cases (is_attached (retry_busy k.attach_skb))) [
      | inl b ↦ rw (a, b) (pin_link-IsSameTc k idx (codes "generic") w)
      | inr b ↦ rw (a, b) (same w)
    ]
  ]

  anew :
      (k : Answers) (idx : ℕ) (w : Files) → IsSameTc iface w (fresh_xdp k i idx (unpin xdp i w)).0
  anew k idx w =
      and_then w (unpin xdp i w) (fresh_xdp k i idx (unpin xdp i w)).0 (unpin-IsSameTc w)
        (fresh_xdp-IsSameTc k idx (unpin xdp i w))

  take_over-IsSameTc :
      (k : Answers) (idx : ℕ) (w : Files)
      → IsSameTc iface w (take_over k xdp i idx (fresh_xdp k i idx) w).0
  unfolding take_over
  take_over-IsSameTc k idx w = elim (Option-cases (read_meta xdp i w)) [
    | inl e ↦ rw (e, take_over) (anew k idx w)
    | inr ((n, mode), e) ↦ elim (Bool-cases (n == idx && k.swap)) [
      | inl b ↦ rw (e, take_over, b) (same w)
      | inr b ↦ rw (e, take_over, b) (anew k idx w)
    ]
  ]

  pub attach_xdp-IsSameTc :
      (k : Answers) (idx : ℕ) (w : Files) → IsSameTc iface w (attach_xdp k i idx w).0
  unfolding attach_xdp
  attach_xdp-IsSameTc k idx w = elim (Bool-cases (has_pin xdp i w)) [
    | inl p ↦ rw p (take_over-IsSameTc k idx w)
    | inr p ↦ rw p (fresh_xdp-IsSameTc k idx w)
  ]
