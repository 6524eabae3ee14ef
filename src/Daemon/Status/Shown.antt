-- ===== src/Daemon/Status/Shown.antt =====
-- The bans in the status file of ai-firewall/src/daemon.rs, `build_status`, and those that the kernel
-- (ai-firewall-ebpf/src/main.rs, `live`) drops for.
use ai_firewall.Prelude.{
  ℕ, ◌≡◌, refl, sym, ◌∙◌, ap, Bool, Bool-cases, Option-cases, inl, inr, true, false, ◌||◌, Option,
  none, some, List, [], ◌∷◌, any, get, is_some, arith,
}
use ai_firewall.Addr.{Src, v4, v6, src_Eq, src_eq, src_eq_iff}
use ai_firewall.Config.Settings.{Config, Policy}
use ai_firewall.Detector.Float.{Float32}
use ai_firewall.Kernel.Maps.{live}
use ai_firewall.State.{BanRecord, remaining}
use ai_firewall.State.Expiry.{remaining-live}
use ai_firewall.State.Blocklist.{lookup, entries}
use ai_firewall.State.Entries.{get-entries}
use ai_firewall.Daemon.{Shared}
use ai_firewall.Daemon.Uplink.{Attachment}
use ai_firewall.Feeds.{FeedState}
use ai_firewall.Daemon.Bans.Sweep.{Distinct}
use ai_firewall.Daemon.Status.{
  StatusBan, src_leb, insert_ban, sort_bans, status_ban, status_bans, build_status,
}

abbrev pub shows : List StatusBan → Src → Bool
shows bans i = any (λ b. src_eq b.ip i) bans

-- In the order of the sources.
abbrev pub IsSorted : List StatusBan → Type 0
IsSorted [] = Unit {0}
IsSorted (b ∷ []) = Unit {0}
IsSorted (b ∷ c ∷ cs) = (src_leb b.ip c.ip ≡ true) × IsSorted (c ∷ cs)

shows-insert_ban :
    (b : StatusBan) (bans : List StatusBan) (i : Src)
    → shows (insert_ban b bans) i ≡ (src_eq b.ip i || shows bans i)
unfolding insert_ban
shows-insert_ban b [] i = refl
shows-insert_ban b (c ∷ cs) i = ground (arith, shows-insert_ban b cs i)

shows-sort_bans : (bans : List StatusBan) (i : Src) → shows (sort_bans bans) i ≡ shows bans i
unfolding sort_bans
shows-sort_bans [] i = refl
shows-sort_bans (b ∷ bs) i =
    shows-insert_ban b (sort_bans bs) i ∙ ap (λ o. src_eq b.ip i || o) (shows-sort_bans bs i)

leb_total : (a b : Src) → src_leb a b ≡ false → src_leb b a ≡ true
leb_total (v4 a) (v4 b) h = ground arith
leb_total (v4 a) (v6 q) h = ground arith
leb_total (v6 p) (v4 b) h = refl
leb_total (v6 p) (v6 q) h = ground arith

insert_ban-IsSorted :
    (b : StatusBan) (bans : List StatusBan) → IsSorted bans → IsSorted (insert_ban b bans)
unfolding insert_ban
insert_ban-IsSorted b [] h = tt
insert_ban-IsSorted b (c ∷ []) h = elim (Bool-cases (src_leb b.ip c.ip)) [
  | inl before ↦ rw before (before, tt)
  | inr after ↦ rw after (leb_total b.ip c.ip after, tt)
]
insert_ban-IsSorted b (c ∷ d ∷ cs) h =
    let rest = insert_ban-IsSorted b (d ∷ cs) h.1 in
    elim (Bool-cases (src_leb b.ip c.ip)) [
      | inl before ↦ rw before (before, h)
      | inr after ↦ elim (Bool-cases (src_leb b.ip d.ip)) [
        | inl first ↦ rw (after, first) (leb_total b.ip c.ip after, (first, h.1))
        | inr later ↦
            let tail : IsSorted (d ∷ insert_ban b cs) = rw later at rest in
            rw (after, later) (h.0, tail)
      ]
    ]

sort_bans-IsSorted : (bans : List StatusBan) → IsSorted (sort_bans bans)
unfolding sort_bans
sort_bans-IsSorted [] = tt
sort_bans-IsSorted (b ∷ bs) = insert_ban-IsSorted b (sort_bans bs) (sort_bans-IsSorted bs)

shows-status_bans :
    (clock : Src → ℕ) (records : List (Src × BanRecord)) (es : List (Src × ℕ)) (i : Src)
    → Distinct es
    → shows (status_bans clock records es) i ≡ live (clock i) (get i es)
unfolding status_bans status_ban live
shows-status_bans clock records [] i h = refl
shows-status_bans clock records ((j, e) ∷ es) i h =
    let ih = shows-status_bans clock records es i h.1 in
    let known = remaining-live (clock j) e in
    elim (Bool-cases (src_eq j i)) [
      | inl same ↦
          let at : j ≡ i = (src_eq_iff j i).0 same in
          let absent : get i es ≡ none = rw (← at) h.0 in
          let none_left : shows (status_bans clock records es) i ≡ false = ih ∙ rw absent refl in
          let in_force : live (clock i) (some e) ≡ is_some (remaining (clock j) e) =
            rw (← at) (sym known) in
          elim (Option-cases (remaining (clock j) e)) [
            | inl over ↦
                let off : live (clock i) (some e) ≡ false = rw over at in_force in
                rw (status_bans, status_ban, over, same) (none_left ∙ sym off)
            | inr (left, some_left) ↦
                let on : live (clock i) (some e) ≡ true = rw some_left at in_force in
                rw (status_bans, status_ban, some_left, same) (sym on)
          ]
      | inr other ↦ elim (Option-cases (remaining (clock j) e)) [
        | inl over ↦ rw (status_bans, status_ban, over, other) ih
        | inr (left, some_left) ↦ rw (status_bans, status_ban, some_left, other) ih
      ]
    ]

module _ (fl : Float32) where
  -- Let no source be twice in the ban maps. The status file lists a source among its bans exactly when
  -- the kernel drops for it at the time that is read for it, and the bans are in the order of the
  -- sources.
  pub build_status-live :
      (clock : Src → ℕ) (pid unix : ℕ) (cfg : Config) (policy : Policy)
      (feed_states : List FeedState) (feed_networks : ℕ) (s : Shared fl)
      (stats : ℕ → Option (List ℕ)) (attachment : Option Attachment) (started attaches : ℕ)
      → Distinct (entries s.blocklist)
      → let status =
          build_status fl clock pid unix cfg policy feed_states feed_networks s stats attachment
            started attaches in
        ((i : Src) → shows status.bans i ≡ live (clock i) (lookup s.blocklist i))
        × IsSorted status.bans
  unfolding build_status
  build_status-live clock pid unix cfg policy feed_states feed_networks s stats attachment started
        attaches h =
      let bans = status_bans clock s.records (entries s.blocklist) in
      (
        λ i.
            shows-sort_bans bans i
            ∙ shows-status_bans clock s.records (entries s.blocklist) i h
            ∙ ap (live (clock i)) (get-entries s.blocklist i),
        sort_bans-IsSorted bans,
      )
