-- ===== src/Daemon/Bans/Refresh.antt =====
-- Protected sources (the router, the name servers, trusted networks) and the bans of
-- ai-firewall/src/daemon.rs: what `refresh_protection` establishes.
use ai_firewall.Prelude.{
  ℕ, ◌≡◌, refl, sym, ap, ◌∙◌, Bool, Bool-cases, inl, inr, true, false, ◌&&◌, none, some, List, [],
  ◌∷◌, ◌++◌, retain, get, contains_key, remove, unwrap_or, if◌then◌else◌, arith,
}
use ai_firewall.Prelude.MapLaws.{get-remove}
use ai_firewall.Text.{Text, codes, text_eq, text_eq_iff}
use ai_firewall.Addr.{Src, src_Eq, src_eq, src_eq_iff}
use ai_firewall.Config.Cidr.{Cidr}
use ai_firewall.Detector.{is_protected, set_protected}
use ai_firewall.Config.Settings.{parse_all}
use ai_firewall.Detector.Float.{Float32}
use ai_firewall.State.{BanRecord}
use ai_firewall.State.Blocklist.{BanMap}
use ai_firewall.Daemon.{Shared}
use ai_firewall.Daemon.Bans.{try_remove, refresh_protection, lift_all}

module _ (fl : Float32) (k : BanMap) where
  -- No automatic ban is recorded on a source that the detector protects.
  abbrev pub SparesAll : Shared fl → Type 0
  SparesAll s =
      (i : Src) (r : BanRecord)
      → get i s.records ≡ some r
      → r.source ≡ codes "auto"
      → is_protected s.detector i ≡ false

  lift_all-get :
      (s : Shared fl) (rs : List (Src × BanRecord)) (i : Src)
      → get i (lift_all fl k s rs).records ≡ (if contains_key i rs then none else get i s.records)
  unfolding lift_all
  lift_all-get s [] i = refl
  lift_all-get s ((ip, r) ∷ rs) i =
      let s' : Shared fl = record s {
        blocklist = try_remove fl k s.blocklist ip;
        records = remove ip s.records;
        dirty = true;
      } in
      let ih = lift_all-get s' rs i in
      let gone = get-remove ip i s.records in
      elim (Bool-cases (src_eq ip i)) [
        | inl same ↦ elim (Bool-cases (contains_key i rs)) [
          | inl again ↦ rw same (ih ∙ rw again)
          | inr once ↦ rw same (ih ∙ rw once (gone ∙ rw same))
        ]
        | inr other ↦
            rw other (ih ∙ ap (λ o. if contains_key i rs then none else o) (gone ∙ rw other))
      ]

  lift_all-detector :
      (rs : List (Src × BanRecord)) (s : Shared fl) → (lift_all fl k s rs).detector ≡ s.detector
  unfolding lift_all
  lift_all-detector [] s = refl
  lift_all-detector ((ip, r) ∷ rs) s = lift_all-detector rs _

  -- An entry that a filter keeps is found behind it.
  found :
      (p : Src × BanRecord → Bool) (i : Src) (r : BanRecord) (m : List (Src × BanRecord))
      → get i m ≡ some r
      → p (i, r) ≡ true
      → contains_key i (retain p m) ≡ true
  found p i r [] h e = cc
  found p i r ((j, v) ∷ m) h e = elim (Bool-cases (src_eq j i)) [
    | inl same ↦
        let at : j ≡ i = (src_eq_iff j i).0 same in
        let is : v ≡ r = ground arith in
        let kept : p (j, v) ≡ true = rw (at, is) e in rw kept (rw same)
    | inr other ↦
        let there : get i m ≡ some r = rw other at h in
        let ih = found p i r m there e in
        elim (Bool-cases (p (j, v))) [
          | inl kept ↦ rw (kept, other) ih
          | inr dropped ↦ rw dropped ih
        ]
  ]

  -- Whatever was recorded before, after a refresh no automatic ban is recorded on a source that is
  -- protected from then on.
  pub refresh-Spares :
      (auto : List Cidr) (own6 : List ℕ) (trusted : List Text) (s : Shared fl)
      → SparesAll (refresh_protection fl k auto own6 trusted s)
  unfolding refresh_protection
  refresh-Spares auto own6 trusted s i r h source =
      let d = set_protected s.detector (auto ++ unwrap_or (parse_all trusted) []) own6 in
      let p : Src × BanRecord → Bool =
        λ r. text_eq r.1.source (codes "auto") && is_protected d r.0 in
      let rs = retain p s.records in
      let s' : Shared fl = record s { detector = d } in
      let now = lift_all-get s' rs i in
      rw (lift_all-detector rs s') (elim (Bool-cases (is_protected d i)) [
        | inr free ↦ free
        | inl guarded ↦ elim (Bool-cases (contains_key i rs)) [
          | inl lifted ↦ absurd (ground (arith, now))
          | inr kept ↦
              let before : get i s.records ≡ some r = sym (now ∙ rw kept) ∙ h in
              let hit : p (i, r) ≡ true =
                rw ((text_eq_iff r.source (codes "auto")).1 source) guarded in
              absurd (ground (arith, found p i r s.records before hit))
        ]
      ])
