-- ===== src/Daemon/Uplink/Regained.antt =====
-- When a tick of the daemon finds the interface to guard, it guards it.
use ai_firewall.Prelude.{
  ℕ, ◌≡◌, refl, sym, ap, ◌∙◌, Bool, true, not, ◌&&◌, ◌||◌, Option, some, none, ◌==◌, arith,
  Bool-cases, Option-cases, inl, inr, retain,
}
use ai_firewall.Text.{Text, codes, text_eq, text_eq_iff}
use ai_firewall.Links.{
  Answers, Files, Outcome, failed, guarding, has_pin, read_meta, attach_xdp, attach_tc, take_over,
  fresh_xdp, pin_link, unpin, unpin_each, pinned_ifaces, retry_busy, is_attached,
}
use ai_firewall.Daemon.Uplink.{
  Attachment, Host, Uplink, wanted_iface, still_good, unpin_both, attach_both, attach_wanted,
  heal_from, heal, settle, is_guarding,
}

-- The kernel attaches the filter in one of the two modes, native or generic, once it is no longer
-- busy, and pins it; it need not swap programs.
pub record IsWilling (k : Answers) : Type 0 where
  pub attaches : (is_attached (retry_busy k.attach) || is_attached (retry_busy k.attach_skb)) ≡ true
  pub takes : k.take_link ≡ true
  pub pins : (k.link_fd && k.pin) ≡ true

module _ (k : Answers) (willing : IsWilling k) (iface : Text) (idx : ℕ) where
  fresh_guards : (w : Files) → is_guarding (fresh_xdp k iface idx w).1 ≡ true
  unfolding fresh_xdp pin_link
  fresh_guards w = elim (Bool-cases (is_attached (retry_busy k.attach))) [
    | inl native ↦ rw (native, willing.takes, willing.pins) refl
    | inr other ↦
        let generic : is_attached (retry_busy k.attach_skb) ≡ true = rw other at willing.attaches in
        rw (other, generic, willing.takes, willing.pins) refl
  ]

  take_over_guards :
      (w : Files)
      → is_guarding (take_over k (codes "xdp") iface idx (fresh_xdp k iface idx) w).1 ≡ true
  unfolding take_over
  take_over_guards w = elim (Option-cases (read_meta (codes "xdp") iface w)) [
    | inl e ↦ rw (e, take_over) (fresh_guards (unpin (codes "xdp") iface w))
    | inr ((n, mode), e) ↦ elim (Bool-cases (n == idx && k.swap)) [
      | inl b ↦ rw (e, take_over, b, willing.takes) refl
      | inr b ↦ rw (e, take_over, b) (fresh_guards (unpin (codes "xdp") iface w))
    ]
  ]

  attach_guards : (w : Files) → is_guarding (attach_xdp k iface idx w).1 ≡ true
  unfolding attach_xdp
  attach_guards w = elim (Bool-cases (has_pin (codes "xdp") iface w)) [
    | inl p ↦ rw p (take_over_guards w)
    | inr p ↦ rw p (fresh_guards w)
  ]

-- The daemon guards this interface with this index.
pub record IsGuarding (iface : Text) (idx : ℕ) (u : Uplink) : Type 0 where
  pub now : Attachment
  pub attached : u.attachment ≡ some now
  pub on_iface : now.iface ≡ iface
  pub at_index : now.ifindex ≡ idx

settled :
    (iface : Text) (idx : ℕ) (egress : Bool) (w : Files) (o : Outcome)
    → is_guarding o ≡ true
    → IsGuarding iface idx (settle iface idx egress (w, o)).0
settled iface idx egress w failed h = cc
settled iface idx egress w (guarding mode reused) h = record {
  now = record { iface = iface; ifindex = idx; mode = mode; egress = egress };
  attached = refl;
  on_iface = refl;
  at_index = refl;
}

module _ (host : Host) (willing : IsWilling host.xdp) (iface : Text) (idx : ℕ)
    (index : host.ifindex iface ≡ some idx) where
  attach_both_guards : (w : Files) → IsGuarding iface idx (attach_both host iface idx w).0
  unfolding attach_both
  attach_both_guards w =
      let w1 = unpin_each (retain (λ i. not (text_eq i iface)) (pinned_ifaces w)) w in
      let tc = attach_tc host.tc iface idx w1 in
      let flt = attach_xdp host.xdp iface idx tc.0 in
      settled iface idx (is_guarding tc.1) flt.0 flt.1
        (attach_guards host.xdp willing iface idx tc.0)

  attach_wanted_guards : (w : Files) → IsGuarding iface idx (attach_wanted host (some iface) w).0
  unfolding attach_wanted
  attach_wanted_guards w = rw (index, attach_wanted) (attach_both_guards w)

  unchanged :
      (a : Attachment) (w : Files)
      → still_good (some iface) host a ≡ true
      → IsGuarding iface idx (record { attachment = some a; files = w })
  unfolding still_good
  unchanged a w e =
      let named : iface ≡ a.iface = (text_eq_iff iface a.iface).0 (ground arith) in
      let at_index : host.ifindex a.iface ≡ some idx = ap host.ifindex (sym named) ∙ index in
      record { now = a; attached = refl; on_iface = sym named; at_index = ground arith }

  heal_from_guards :
      (current : Option Attachment) (w : Files)
      → IsGuarding iface idx (heal_from (some iface) host current w).0
  unfolding heal_from
  heal_from_guards none w = attach_wanted_guards w
  heal_from_guards (some a) w = elim (Bool-cases (still_good (some iface) host a)) [
    | inl e ↦ rw (e, heal_from) (unchanged a w e)
    | inr e ↦ rw (e, heal_from) (attach_wanted_guards (unpin_both a.iface w))
  ]

-- Whenever the interface that is wanted exists and the kernel lets the filter be attached, in native
-- or in generic mode, and pinned, one tick suffices: after it the daemon guards that interface with
-- its present index. This holds whatever was attached before and whatever the files of old links
-- say, and also where the kernel was busy for up to 30 calls or refuses the egress program.
pub heal_guards_wanted :
    (interface : Text) (host : Host) (u : Uplink) (iface : Text) (idx : ℕ)
    → wanted_iface interface host u.attachment ≡ some iface
    → host.ifindex iface ≡ some idx
    → IsWilling host.xdp
    → IsGuarding iface idx (heal interface host u).0
unfolding heal
heal_guards_wanted interface host u iface idx wanted index willing =
    rw wanted (heal_from_guards host willing iface idx index u.attachment u.files)
