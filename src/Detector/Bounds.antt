-- ===== src/Detector/Bounds.antt =====
-- ai-firewall/src/detector.rs, `observe`: how many sources it tracks, and whom it bans.
use ai_firewall.Prelude.{
  ℕ, ◌-◌, ◌≤◌, ◌<◌, ◌≡◌, refl, sym, ap, ◌∙◌, true, false, Option, none, some, List, [], ◌∷◌, length,
  length-retain-le, get, contains_key, insert, leb, ltb, arith, Bool-cases, inl, inr, ◌⊎◌,
}
use ai_firewall.Prelude.MapLaws.{
  get-insert, get-remove, length-insert-le, length-insert_known, length-remove-le, beq_refl,
}
use ai_firewall.Wire.{PacketEvent}
use ai_firewall.Addr.{Src, src_Eq, of}
use ai_firewall.Detector.Float.{Float32}
use ai_firewall.Detector.{
  Detector, Track, Offender, max_tracked, is_protected, prune, in_window, update_track,
}
use ai_firewall.Detector.Observe.{
  Ban, after, observe, observe_all, count_event, judge, strike, ban_secs,
}

abbrev pub All {ℓ κ} : {A : Type ℓ} → (A → Type κ) → List A → Type κ
All P [] = Unit
All P (x ∷ xs) = P x × All P xs

pub All-map {ℓ κ μ} :
    {A : Type ℓ} {P : A → Type κ} {Q : A → Type μ}
    → ((x : A) → P x → Q x)
    → (xs : List A) → All P xs
    → All Q xs
All-map f [] h = tt
All-map f (x ∷ xs) h = (f x h.0, All-map f xs h.1)

module _ (fl : Float32) where
  judge-length :
      (d : Detector) (ip : Src) (t : Track) (now : ℕ)
      → length (judge fl d ip t now).0.tracks ≤ length (insert ip t d.tracks)
  unfolding judge
  judge-length d ip t now = ground (arith, length-remove-le ip (insert ip t d.tracks))

  count_event-length :
      (d : Detector) (ip : Src) (ev : PacketEvent) (now : ℕ)
      → (contains_key ip d.tracks ≡ true) ⊎ (length d.tracks < max_tracked)
      → length d.tracks ≤ max_tracked
      → length (count_event fl d ip ev now).0.tracks ≤ max_tracked
  unfolding count_event
  count_event-length d ip ev now room h =
      let t = update_track d.cfg ev (in_window d.cfg (get ip d.tracks) now) in
      ground (
        arith,
        judge-length d ip t now,
        length-insert-le ip t d.tracks,
        length-insert_known ip t d.tracks,
      )

  prune-length : (d : Detector) (now : ℕ) → length (prune d now).tracks ≤ length d.tracks
  unfolding prune
  prune-length d now =
      length-retain-le (λ t. ltb (now - t.1.window_start) d.cfg.window_secs) d.tracks

  -- However many sources send events, at most MAX_TRACKED of them are tracked at once.
  pub observe-bounded :
      (d : Detector) (ev : PacketEvent) (now : ℕ)
      → length d.tracks ≤ max_tracked
      → length (observe fl d ev now).0.tracks ≤ max_tracked
  unfolding observe
  observe-bounded d ev now h = elim (Bool-cases (leb max_tracked (length d.tracks))) [
    | inl full ↦ elim (Bool-cases (contains_key (of ev) d.tracks)) [
      | inl known ↦ ground (arith, count_event-length d (of ev) ev now (inl known) h)
      | inr new ↦ ground (
        arith,
        prune-length d now,
        λ (r : length (prune d now).tracks < max_tracked).
            count_event-length (prune d now) (of ev) ev now (inr r) (omega arith),
      )
    ]
    | inr free ↦ ground (arith, count_event-length d (of ev) ev now (inr (ground arith)) h)
  ]

  -- What `observe` leaves of the protection, and whom it bans.
  observe_protection :
      (d : Detector) (ev : PacketEvent) (now : ℕ)
      → ((observe fl d ev now).0.protected ≡ d.protected)
        × ((observe fl d ev now).0.protected6 ≡ d.protected6)
  unfolding observe prune
  observe_protection d ev now = (ground arith, ground arith)

  pub is_protected-observe :
      (d : Detector) (ev : PacketEvent) (now : ℕ) (src : Src)
      → is_protected (observe fl d ev now).0 src ≡ is_protected d src
  unfolding is_protected
  is_protected-observe d ev now src = ground (arith, observe_protection d ev now)

  judge_ban :
      (d : Detector) (ip : Src) (t : Track) (now : ℕ) (ban : Ban fl)
      → (judge fl d ip t now).1 ≡ some ban
      → let d' = (judge fl d ip t now).0 in
        (ban.ip ≡ ip)
        × (ban.secs ≡ ban_secs d.bans ban.strikes)
        × (get ip d'.offenders ≡ some (record { strikes = ban.strikes; last_ban = now }))
        × (get ip d'.tracks ≡ none)
        × (ban.strikes ≡ (strike d.bans (get ip d.offenders) now).strikes)
  unfolding judge strike
  judge_ban d ip t now ban h =
      let o : Offender = strike d.bans (get ip d.offenders) now in
      (
        ground arith,
        ground arith,
        ground (arith, get-insert ip ip o d.offenders, beq_refl ip),
        ground (arith, get-remove ip ip (insert ip t d.tracks), beq_refl ip),
        ground arith,
      )

  -- A ban that `observe` returns is on the source of the event, which is not protected, and lasts as
  -- long as the bans of the settings give for its strikes; the detector then remembers that many
  -- strikes and this time for the source, and tracks the source no longer.
  pub observe_ban :
      (d : Detector) (ev : PacketEvent) (now : ℕ) (ban : Ban fl)
      → (observe fl d ev now).1 ≡ some ban
      → let d' = (observe fl d ev now).0 in
        (ban.ip ≡ of ev)
        × (is_protected d (of ev) ≡ false)
        × (ban.secs ≡ ban_secs d.bans ban.strikes)
        × (get (of ev) d'.offenders ≡ some (record { strikes = ban.strikes; last_ban = now }))
        × (get (of ev) d'.tracks ≡ none)
  unfolding observe prune count_event
  observe_ban d ev now ban h =
      let ip = of ev in
      let pruned = prune d now in
      let t = update_track d.cfg ev (in_window d.cfg (get ip d.tracks) now) in
      let t' = update_track d.cfg ev (in_window d.cfg (get ip pruned.tracks) now) in
      let direct = judge_ban d ip t now ban in
      let later = judge_ban pruned ip t' now ban in
      (ground arith, ground arith, ground arith, ground arith, ground arith)

  All-after :
      {P : Ban fl → Type 0} (o : Option (Ban fl)) (bans : List (Ban fl))
      → ((ban : Ban fl) → o ≡ some ban → P ban)
      → All P bans
      → All P (after fl o bans)
  All-after none bans p h = h
  All-after (some ban) bans p h = (p ban refl, h)

  found :
      (d : Detector) (ev : PacketEvent) (now : ℕ) (ban : Ban fl)
      → (observe fl d ev now).1 ≡ some ban
      → is_protected d ban.ip ≡ false
  found d ev now ban e =
      let facts = observe_ban d ev now ban e in ap (is_protected d) facts.0 ∙ facts.1

  -- Whatever events come in, none of the bans that they lead to is on a protected source.
  pub observe_all-unprotected :
      (d : Detector) (evs : List (PacketEvent × ℕ))
      → All (λ (ban : Ban fl). is_protected d ban.ip ≡ false) (observe_all fl d evs).1
  unfolding observe_all
  observe_all-unprotected d [] = tt
  observe_all-unprotected d ((ev, now) ∷ evs) =
      let d' = (observe fl d ev now).0 in
      let rest =
        All-map (λ ban h. sym (is_protected-observe d ev now ban.ip) ∙ h) (observe_all fl d' evs).1
          (observe_all-unprotected d' evs) in
      All-after (observe fl d ev now).1 (observe_all fl d' evs).1 (found d ev now) rest
