-- ===== src/Daemon/Uplink/Guarding.antt =====
-- What a tick of the daemon leaves attached.
use ai_firewall.Prelude.{
  ℕ, ◌≤◌, ◌≡◌, refl, ap, ◌∙◌, Bool, true, false, not, Option, some, none, subst, Bool-cases,
  Option-cases, inl, inr, retain,
}
use ai_firewall.Text.{Text, codes, text_eq}
use ai_firewall.Links.{
  Answers, Files, Outcome, failed, guarding, u32_max, attach_xdp, attach_tc, unpin_each,
  pinned_ifaces,
}
use ai_firewall.Links.Takeover.{IsPinned, attach_xdp-IsPinned, attach_tc-IsPinned}
use ai_firewall.Links.Apart.{IsSameTc, attach_xdp-IsSameTc}
use ai_firewall.Daemon.Uplink.{
  Attachment, Host, Uplink, wanted_iface, still_good, unpin_both, attach_both, attach_wanted,
  heal_from, heal, settle, is_guarding,
}

-- The flows that strict UDP looks for are being recorded.
abbrev pub IsRecorded : Bool → Text → ℕ → Files → Type 0
IsRecorded false iface idx w = Unit {0}
IsRecorded true iface idx w = (mode : Text) × IsPinned (codes "tc") iface idx mode w

pub record IsGuardedBy (w : Files) (a : Attachment) : Type 0 where
  pub filter : IsPinned (codes "xdp") a.iface a.ifindex a.mode w
  pub flows : IsRecorded a.egress a.iface a.ifindex w

abbrev IsGuarded : Option Attachment → Files → Type 0
IsGuarded none w = Unit {0}
IsGuarded (some a) w = IsGuardedBy w a

-- An attachment that the daemon names has its filter pinned with its index, and the egress program,
-- too, where the daemon says so.
abbrev pub Guards : Uplink → Type 0
Guards u = IsGuarded u.attachment u.files

IsRecorded-after :
    (k : Answers) (iface : Text) (idx : ℕ) (w w' : Files) (o : Outcome)
    → k.write ≡ true
    → idx ≤ u32_max
    → attach_tc k iface idx w ≡ (w', o)
    → IsRecorded (is_guarding o) iface idx w'
IsRecorded-after k iface idx w w' failed written fits h = tt
IsRecorded-after k iface idx w w' (guarding mode reused) written fits h =
    (mode, attach_tc-IsPinned k written idx fits w' iface mode reused w h)

still-IsRecorded :
    (egress : Bool) (iface : Text) (idx : ℕ) (w w' : Files)
    → IsSameTc iface w w'
    → IsRecorded egress iface idx w
    → IsRecorded egress iface idx w'
still-IsRecorded false iface idx w w' s r = tt
still-IsRecorded true iface idx w w' s (mode, p) =
    (mode, record { pin = s.pin ∙ p.pin; meta = s.meta ∙ p.meta })

settle-Guards :
    (k : Answers) (iface : Text) (idx : ℕ) (egress : Bool) (w w' : Files) (o : Outcome)
    → k.write ≡ true
    → idx ≤ u32_max
    → IsRecorded egress iface idx w
    → attach_xdp k iface idx w ≡ (w', o)
    → Guards (settle iface idx egress (w', o)).0
settle-Guards k iface idx egress w w' failed written fits r h = tt
settle-Guards k iface idx egress w w' (guarding mode reused) written fits r h = record {
  filter = attach_xdp-IsPinned k written idx fits w' iface mode reused w h;
  flows =
      still-IsRecorded egress iface idx w w'
        (subst (IsSameTc iface w) (ap (λ (p : Files × Outcome). p.0) h)
          (attach_xdp-IsSameTc iface iface k idx w))
        r;
}

module _ (host : Host) (tc_written : host.tc.write ≡ true) (xdp_written : host.xdp.write ≡ true)
    (fits : (i : Text) (n : ℕ) → host.ifindex i ≡ some n → n ≤ u32_max) where
  attach_both-Guards :
      (iface : Text) (idx : ℕ) (w : Files) → idx ≤ u32_max → Guards (attach_both host iface idx w).0
  unfolding attach_both
  attach_both-Guards iface idx w le =
      let w1 = unpin_each (retain (λ i. not (text_eq i iface)) (pinned_ifaces w)) w in
      let tc = attach_tc host.tc iface idx w1 in
      let flt = attach_xdp host.xdp iface idx tc.0 in
      settle-Guards host.xdp iface idx (is_guarding tc.1) tc.0 flt.0 flt.1 xdp_written le
        (IsRecorded-after host.tc iface idx w1 tc.0 tc.1 tc_written le refl) refl

  attach_wanted-Guards : (wanted : Option Text) (w : Files) → Guards (attach_wanted host wanted w).0
  unfolding attach_wanted
  attach_wanted-Guards none w = tt
  attach_wanted-Guards (some iface) w = elim (Option-cases (host.ifindex iface)) [
    | inl e ↦ rw (e, attach_wanted) tt
    | inr (n, e) ↦ rw (e, attach_wanted) (attach_both-Guards iface n w (fits iface n e))
  ]

  heal_from-Guards :
      (wanted : Option Text) (current : Option Attachment) (w : Files)
      → IsGuarded current w
      → Guards (heal_from wanted host current w).0
  unfolding heal_from
  heal_from-Guards wanted none w g = attach_wanted-Guards wanted w
  heal_from-Guards wanted (some a) w g = elim (Bool-cases (still_good wanted host a)) [
    | inl e ↦ rw (e, heal_from) g
    | inr e ↦ rw (e, heal_from) (attach_wanted-Guards wanted (unpin_both a.iface w))
  ]

-- A tick keeps what the daemon says of its attachment true, whatever the uplink, the indices and
-- the kernel's answers have become, as long as the sidecars can be written: the filter is pinned
-- under the interface and index that the daemon names, and where it says that the egress program is
-- attached, which lets strict UDP on, that program is pinned there, too.
pub heal-Guards :
    (interface : Text) (host : Host) (u : Uplink)
    → host.tc.write ≡ true
    → host.xdp.write ≡ true
    → ((i : Text) (n : ℕ) → host.ifindex i ≡ some n → n ≤ u32_max)
    → Guards u
    → Guards (heal interface host u).0
unfolding heal
heal-Guards interface host u a b fits g =
    heal_from-Guards host a b fits (wanted_iface interface host u.attachment) u.attachment u.files g
