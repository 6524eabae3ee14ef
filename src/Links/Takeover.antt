-- ===== src/Links/Takeover.antt =====
-- A restart takes a pinned link over: the sidecar's text, and the two attaches.
use mathlib.Core.List.{reverse, reverse-append, reverse-cons, reverse-reverse, append_assoc}
use ai_firewall.Prelude.{
  ℕ, ◌≤◌, ◌≡◌, refl, sym, ap, ◌∙◌, Bool, true, false, ◌&&◌, some, [], ◌∷◌, ◌++◌, ◌==◌, ==_iff,
  Bool-cases, Option-cases, inl, inr, arith, if◌then◌else◌, subst,
}
use ai_firewall.Prelude.MapLaws.{get-insert}
use ai_firewall.Text.{
  Text, codes, trim, trim_start, is_whitespace, text_eq, text_eq_iff, text_Eq, print_uint, is_digit,
}
use ai_firewall.Text.Decimal.{Starts, print_uint-Starts, print_uint-append, parse_uint-print_uint}
use ai_firewall.Text.Trim.{split_once-print_uint}
use ai_firewall.Links.{
  Files, Answers, Outcome, guarding, failed, has_pin, u32_max, meta_text, parse_meta, parse_index,
  read_meta, write_meta, pin_link, fresh_xdp, fresh_tc, take_over, attach_xdp, attach_tc, unpin,
  retry_busy, is_attached, link_name,
}

trim_start-Starts : (s t : Text) → Starts s → trim_start (s ++ t) ≡ s ++ t
unfolding trim_start
trim_start-Starts [] t h = elim h [ ]
trim_start-Starts (c ∷ s) t h = rw (solid c h)
  where
    solid : (c : ℕ) → is_digit c ≡ true → is_whitespace c ≡ false
    solid c h = ground arith

-- A mode that no white space ends, with the line end behind it.
abbrev IsMode : Text → Type 0
IsMode mode = (t : Text) → trim_start (reverse (mode ++ (b'\n' ∷ [])) ++ t) ≡ reverse mode ++ t

reverse-line : (s m : Text) → reverse (s ++ b' ' ∷ m) ≡ reverse m ++ b' ' ∷ reverse s
reverse-line s m =
    reverse-append s (b' ' ∷ m)
    ∙ (rw (reverse-cons {A = ℕ} b' ' m) (append_assoc (reverse m) (b' ' ∷ []) (reverse s)))

trim-line :
    (s mode : Text)
    → Starts s
    → IsMode mode
    → trim (s ++ b' ' ∷ (mode ++ (b'\n' ∷ []))) ≡ s ++ b' ' ∷ mode
unfolding trim
trim-line s mode h m = rw (trim_start-Starts s (b' ' ∷ (mode ++ (b'\n' ∷ []))) h) (
    ap (λ t. reverse (trim_start t)) (reverse-line s (mode ++ (b'\n' ∷ [])))
    ∙ ap reverse (m (b' ' ∷ reverse s))
    ∙ ap reverse (sym (reverse-line s mode))
    ∙ reverse-reverse (s ++ b' ' ∷ mode))

-- A sidecar is read back as it was written.
parse_meta-meta_text :
    (idx : ℕ) (mode : Text)
    → idx ≤ u32_max
    → IsMode mode
    → parse_meta (meta_text idx mode) ≡ some (idx, mode)
unfolding parse_meta meta_text parse_index
parse_meta-meta_text idx mode h m =
    rw
      (
        print_uint-append idx [] (b' ' ∷ (mode ++ (b'\n' ∷ []))),
        trim-line (print_uint idx []) mode (print_uint-Starts idx []) m,
        sym (print_uint-append idx [] (b' ' ∷ mode)),
        split_once-print_uint b' ' idx mode refl,
        parse_uint-print_uint u32_max idx h,
        parse_meta,
      )
      refl

-- The link of this kind and interface is pinned, and its sidecar names this index and mode.
pub record IsPinned (kind iface : Text) (idx : ℕ) (mode : Text) (w : Files) : Type 0 where
  pub pin : has_pin kind iface w ≡ true
  pub meta : read_meta kind iface w ≡ some (idx, mode)

name_eq_self : (s : Text) → text_eq s s ≡ true
name_eq_self s = (text_eq_iff s s).1 refl

read-write :
    (kind iface : Text) (idx : ℕ) (mode : Text) (w : Files)
    → idx ≤ u32_max
    → IsMode mode
    → read_meta kind iface (write_meta true kind iface idx mode w) ≡ some (idx, mode)
unfolding read_meta write_meta
read-write kind iface idx mode w h m =
    rw
      (
        get-insert (link_name kind iface) (link_name kind iface) (meta_text idx mode) w.metas,
        name_eq_self (link_name kind iface),
        read_meta,
      )
      (parse_meta-meta_text idx mode h m)

module _ (k : Answers) (written : k.write ≡ true) (idx : ℕ) (fits : idx ≤ u32_max)
    (w' : Files) where
  pin_link-IsPinned :
      (kind iface mode m : Text) (r : Bool) (w : Files)
      → IsMode mode
      → pin_link k kind iface idx mode w ≡ (w', guarding m r)
      → IsPinned kind iface idx m w'
  unfolding pin_link write_meta
  pin_link-IsPinned kind iface mode m r w good h =
      let back =
        read-write kind iface idx mode (record w { pins = link_name kind iface ∷ w.pins }) fits
          good in
      let self = name_eq_self (link_name kind iface) in
      record { pin = ground arith; meta = ground arith }

  fresh_xdp-IsPinned :
      (iface m : Text) (r : Bool) (w : Files)
      → fresh_xdp k iface idx w ≡ (w', guarding m r)
      → IsPinned (codes "xdp") iface idx m w'
  unfolding fresh_xdp trim_start
  fresh_xdp-IsPinned iface m r w h = elim (Bool-cases (is_attached (retry_busy k.attach))) [
    | inl a ↦ pin_link-IsPinned (codes "xdp") iface (codes "native") m r w (λ t. refl) (rw a at h)
    | inr a ↦ elim (Bool-cases (is_attached (retry_busy k.attach_skb))) [
      | inl b ↦
          pin_link-IsPinned (codes "xdp") iface (codes "generic") m r w (λ t. refl) (rw (a, b) at h)
      | inr b ↦ absurd (cc (rw (a, b) at h))
    ]
  ]

  fresh_tc-IsPinned :
      (iface m : Text) (r : Bool) (w : Files)
      → fresh_tc k iface idx w ≡ (w', guarding m r)
      → IsPinned (codes "tc") iface idx m w'
  unfolding fresh_tc trim_start
  fresh_tc-IsPinned iface m r w h = elim (Bool-cases (is_attached (retry_busy k.attach))) [
    | inl a ↦ pin_link-IsPinned (codes "tc") iface (codes "tcx") m r w (λ t. refl) (rw a at h)
    | inr a ↦ absurd (cc (rw a at h))
  ]

  taken_over :
      (kind iface m mode : Text) (r : Bool) (i : ℕ) (w : Files)
      → has_pin kind iface w ≡ true
      → read_meta kind iface w ≡ some (i, mode)
      → i ≡ idx
      → ◌≡◌ {A = Files × Outcome}
          (w, if k.take_link then guarding mode true else failed)
          (w', guarding m r)
      → IsPinned kind iface idx m w'
  taken_over kind iface m mode r i w p e same h =
      let at_w : IsPinned kind iface idx m w = record { pin = p; meta = ground arith } in
      subst (IsPinned kind iface idx m) (ap (λ (o : Files × Outcome). o.0) h) at_w

  take_over-IsPinned :
      (kind iface m : Text) (r : Bool) (fresh : Files → Files × Outcome) (w : Files)
      → has_pin kind iface w ≡ true
      → ((v : Files) → fresh v ≡ (w', guarding m r) → IsPinned kind iface idx m w')
      → take_over k kind iface idx fresh w ≡ (w', guarding m r)
      → IsPinned kind iface idx m w'
  unfolding take_over
  take_over-IsPinned kind iface m r fresh w p anew h =
      elim (Option-cases (read_meta kind iface w)) [
        | inl e ↦ anew (unpin kind iface w) (rw (e, take_over) at h)
        | inr ((i, mode), e) ↦ elim (Bool-cases (i == idx && k.swap)) [
          | inl b ↦
              taken_over kind iface m mode r i w p e (ground arith) (rw (e, take_over, b) at h)
          | inr b ↦ anew (unpin kind iface w) (rw (e, take_over, b) at h)
        ]
      ]

  pub attach_xdp-IsPinned :
      (iface m : Text) (r : Bool) (w : Files)
      → attach_xdp k iface idx w ≡ (w', guarding m r)
      → IsPinned (codes "xdp") iface idx m w'
  unfolding attach_xdp
  attach_xdp-IsPinned iface m r w h = elim (Bool-cases (has_pin (codes "xdp") iface w)) [
    | inl p ↦
        take_over-IsPinned (codes "xdp") iface m r (fresh_xdp k iface idx) w p
          (λ v. fresh_xdp-IsPinned iface m r v) (rw p at h)
    | inr p ↦ fresh_xdp-IsPinned iface m r w (rw p at h)
  ]

  pub attach_tc-IsPinned :
      (iface m : Text) (r : Bool) (w : Files)
      → attach_tc k iface idx w ≡ (w', guarding m r)
      → IsPinned (codes "tc") iface idx m w'
  unfolding attach_tc
  attach_tc-IsPinned iface m r w h = elim (Bool-cases (has_pin (codes "tc") iface w)) [
    | inl p ↦
        take_over-IsPinned (codes "tc") iface m r (fresh_tc k iface idx) w p
          (λ v. fresh_tc-IsPinned iface m r v) (rw p at h)
    | inr p ↦ fresh_tc-IsPinned iface m r w (rw p at h)
  ]

reuse :
    (k : Answers) (kind iface mode : Text) (idx : ℕ) (fresh : Files → Files × Outcome) (w : Files)
    → k.swap ≡ true
    → k.take_link ≡ true
    → IsPinned kind iface idx mode w
    → take_over k kind iface idx fresh w ≡ (w, guarding mode true)
unfolding take_over
reuse k kind iface mode idx fresh w s t p =
    rw (p.meta, take_over, (==_iff idx idx).1 refl, s, t) refl

-- A daemon that starts again while the interface keeps its index takes the running filter over:
-- after an attach of the filter that succeeded and whose sidecar was written, the next attach with
-- that index reports the same mode and a reused link and changes no file, whenever the kernel lets
-- the program be swapped.
pub restart_takes_over :
    (k k' : Answers) (iface mode : Text) (idx : ℕ) (reused : Bool) (w w' : Files)
    → idx ≤ u32_max
    → k.write ≡ true
    → k'.swap ≡ true
    → k'.take_link ≡ true
    → attach_xdp k iface idx w ≡ (w', guarding mode reused)
    → attach_xdp k' iface idx w' ≡ (w', guarding mode true)
unfolding attach_xdp
restart_takes_over k k' iface mode idx reused w w' fits written s t h =
    let p = attach_xdp-IsPinned k written idx fits w' iface mode reused w h in
    rw p.pin (reuse k' (codes "xdp") iface mode idx (fresh_xdp k' iface idx) w' s t p)

-- The same of the egress program.
pub restart_takes_egress_over :
    (k k' : Answers) (iface mode : Text) (idx : ℕ) (reused : Bool) (w w' : Files)
    → idx ≤ u32_max
    → k.write ≡ true
    → k'.swap ≡ true
    → k'.take_link ≡ true
    → attach_tc k iface idx w ≡ (w', guarding mode reused)
    → attach_tc k' iface idx w' ≡ (w', guarding mode true)
unfolding attach_tc
restart_takes_egress_over k k' iface mode idx reused w w' fits written s t h =
    let p = attach_tc-IsPinned k written idx fits w' iface mode reused w h in
    rw p.pin (reuse k' (codes "tc") iface mode idx (fresh_tc k' iface idx) w' s t p)
