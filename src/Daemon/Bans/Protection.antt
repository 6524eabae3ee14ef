-- ===== src/Daemon/Bans/Protection.antt =====
-- Protected sources (the router, the name servers, trusted networks) and the bans of
-- ai-firewall/src/daemon.rs: `refresh_protection`, then events and sweeps in any order.
use ai_firewall.Prelude.{
  ℕ, ◌≡◌, refl, sym, ◌∙◌, inl, inr, ◌⊎◌, Option, none, some, List, [], ◌∷◌, get, contains_key,
  arith,
}
use ai_firewall.Prelude.MapLaws.{get-insert, get-remove}
use ai_firewall.Text.{Text}
use ai_firewall.Wire.{PacketEvent}
use ai_firewall.Addr.{Src, src_Eq, src_eq_iff}
use ai_firewall.Config.Cidr.{Cidr}
use ai_firewall.Detector.Float.{Float32}
use ai_firewall.Detector.Observe.{Ban, observe}
use ai_firewall.Detector.Bounds.{observe_ban, is_protected-observe}
use ai_firewall.State.{remaining, BanRecord, manual_record}
use ai_firewall.State.Blocklist.{BanMap, entries}
use ai_firewall.Daemon.{Shared}
use ai_firewall.Daemon.Bans.Refresh.{SparesAll, refresh-Spares}
use ai_firewall.Daemon.Bans.{
  enact, enter, enact_if, handle_event, sweep, sweep_entry, sweep_entries, refresh_protection,
  auto_record,
}
use ai_firewall.Daemon.Bans.Sweep.{get-retain}

module _ (fl : Float32) (k : BanMap) where
  abbrev pub Spares : Shared fl → Type 0
  Spares s = SparesAll fl k s

  pub record SparesProtected (s : Shared fl) : Type 0 where
    pub spares : Spares s

  enact-record :
      (show : Src → Text) (boot_ns unix : ℕ) (s : Shared fl) (ban : Ban fl) (i : Src)
      (r : BanRecord)
      → get i (enact fl k show boot_ns unix s ban).records ≡ some r
      → (ban.ip ≡ i) ⊎ (get i s.records ≡ some r)
  unfolding enact enter
  enact-record show boot_ns unix s ban i r h =
      ground (arith, get-insert ban.ip i (auto_record fl k ban) s.records, src_eq_iff ban.ip i)

  enact-detector :
      (show : Src → Text) (boot_ns unix : ℕ) (s : Shared fl) (ban : Ban fl)
      → (enact fl k show boot_ns unix s ban).detector ≡ s.detector
  unfolding enact enter
  enact-detector show boot_ns unix s ban = ground arith

  enact_if-record :
      (show : Src → Text) (boot_ns unix : ℕ) (s : Shared fl) (o : Option (Ban fl)) (i : Src)
      (r : BanRecord)
      → get i (enact_if fl k show boot_ns unix s o).records ≡ some r
      → ((ban : Ban fl) × (o ≡ some ban) × (ban.ip ≡ i)) ⊎ (get i s.records ≡ some r)
  unfolding enact_if
  enact_if-record show boot_ns unix s none i r h = inr h
  enact_if-record show boot_ns unix s (some ban) i r h =
      elim (enact-record show boot_ns unix s ban i r h) [
        | inl hit ↦ inl (ban, refl, hit)
        | inr old ↦ inr old
      ]

  enact_if-detector :
      (show : Src → Text) (boot_ns unix : ℕ) (s : Shared fl) (o : Option (Ban fl))
      → (enact_if fl k show boot_ns unix s o).detector ≡ s.detector
  unfolding enact_if
  enact_if-detector show boot_ns unix s none = refl
  enact_if-detector show boot_ns unix s (some ban) = enact-detector show boot_ns unix s ban

  handle_event-Spares :
      (show : Src → Text) (now boot_ns unix : ℕ) (s : Shared fl) (ev : PacketEvent)
      → Spares s
      → Spares (handle_event fl k show now boot_ns unix s ev)
  unfolding handle_event
  handle_event-Spares show now boot_ns unix s ev h i r there source =
      let same = is_protected-observe fl s.detector ev now i in
      let o = (observe fl s.detector ev now).1 in
      let s' : Shared fl = record s { detector = (observe fl s.detector ev now).0 } in
      rw (enact_if-detector show boot_ns unix s' o) (
        same ∙ elim (enact_if-record show boot_ns unix s' o i r there) [
          | inl (ban, bans, hit) ↦
              let free = observe_ban fl s.detector ev now ban bans in rw (sym hit ∙ free.0) free.1
          | inr old ↦ h i r old source
        ])

  sweep_entries-origin :
      (clock : Src → ℕ) (es : List (Src × ℕ)) (s : Shared fl) (i : Src) (r : BanRecord)
      → get i (sweep_entries fl k clock s es).records ≡ some r
      → (r ≡ manual_record) ⊎ (get i s.records ≡ some r)
  unfolding sweep_entries sweep_entry
  sweep_entries-origin clock [] s i r h = inr h
  sweep_entries-origin clock ((ip, e) ∷ es) s i r h =
      let s' = sweep_entry fl k s ip (remaining (clock ip) e) in
      elim (sweep_entries-origin clock es s' i r h) [
        | inl hand ↦ inl hand
        | inr old ↦ entry s ip i r (remaining (clock ip) e) old
      ]
    where
      entry :
          (s : Shared fl) (ip i : Src) (r : BanRecord) (left : Option ℕ)
          → get i (sweep_entry fl k s ip left).records ≡ some r
          → (r ≡ manual_record) ⊎ (get i s.records ≡ some r)
      entry s ip i r none h = ground (arith, get-remove ip i s.records)
      entry s ip i r (some left) h = ground (arith, get-insert ip i manual_record s.records)

  sweep_entries-detector :
      (clock : Src → ℕ) (es : List (Src × ℕ)) (s : Shared fl)
      → (sweep_entries fl k clock s es).detector ≡ s.detector
  unfolding sweep_entries sweep_entry
  sweep_entries-detector clock [] s = refl
  sweep_entries-detector clock ((ip, e) ∷ es) s =
      sweep_entries-detector clock es (sweep_entry fl k s ip (remaining (clock ip) e))
      ∙ entry s ip (remaining (clock ip) e)
    where
      entry :
          (s : Shared fl) (ip : Src) (left : Option ℕ)
          → (sweep_entry fl k s ip left).detector ≡ s.detector
      entry s ip none = refl
      entry s ip (some left) = ground arith

  sweep-Spares : (clock : Src → ℕ) (s : Shared fl) → Spares s → Spares (sweep fl k clock s)
  unfolding sweep manual_record
  sweep-Spares clock s h i r there source =
      let es = entries s.blocklist in
      let records = (sweep_entries fl k clock s es).records in
      let kept = get-retain (λ j. contains_key j es) i records in
      let before : get i records ≡ some r = ground (arith, kept) in
      rw (sweep_entries-detector clock es s) (elim (sweep_entries-origin clock es s i r before) [
        | inl hand ↦ absurd (cc)
        | inr old ↦ h i r old source
      ])

  -- What the daemon does, with the clocks it reads and what the system tells it.
  pub data Act : Type 0 where
    event : ℕ → ℕ → ℕ → PacketEvent → Act
    sweeps : (Src → ℕ) → Act
    refreshes : List Cidr → List ℕ → List Text → Act

  unfoldable pub perform : (Src → Text) → Shared fl → Act → Shared fl
  perform show s (event now boot_ns unix ev) = handle_event fl k show now boot_ns unix s ev
  perform show s (sweeps clock) = sweep fl k clock s
  perform show s (refreshes auto own6 trusted) = refresh_protection fl k auto own6 trusted s

  unfoldable pub perform_all : (Src → Text) → Shared fl → List Act → Shared fl
  perform_all show s [] = s
  perform_all show s (a ∷ acts) = perform_all show (perform show s a) acts

  perform-Spares :
      (show : Src → Text) (s : Shared fl) (a : Act) → Spares s → Spares (perform show s a)
  unfolding perform
  perform-Spares show s (event now boot_ns unix ev) h =
      handle_event-Spares show now boot_ns unix s ev h
  perform-Spares show s (sweeps clock) h = sweep-Spares clock s h
  perform-Spares show s (refreshes auto own6 trusted) h = refresh-Spares fl k auto own6 trusted s

  perform_all-Spares :
      (show : Src → Text) (s : Shared fl) (acts : List Act)
      → Spares s
      → Spares (perform_all show s acts)
  unfolding perform_all
  perform_all-Spares show s [] h = h
  perform_all-Spares show s (a ∷ acts) h =
      perform_all-Spares show (perform show s a) acts (perform-Spares show s a h)

  -- From any state, as a restart leaves it, a refresh of the protected sources and then any sequence
  -- of events, sweeps and further refreshes lead to a state in which no automatic ban is recorded on
  -- a source that is protected by then.
  pub daemon-SparesProtected :
      (show : Src → Text) (s : Shared fl) (auto : List Cidr) (own6 : List ℕ) (trusted : List Text)
      (acts : List Act)
      → SparesProtected (perform_all show (refresh_protection fl k auto own6 trusted s) acts)
  daemon-SparesProtected show s auto own6 trusted acts = record {
    spares =
        perform_all-Spares show (refresh_protection fl k auto own6 trusted s) acts
          (refresh-Spares fl k auto own6 trusted s);
  }
