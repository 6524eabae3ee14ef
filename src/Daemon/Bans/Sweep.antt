-- ===== src/Daemon/Bans/Sweep.antt =====
-- `sweep` of ai-firewall/src/daemon.rs: the daemon's records against the bans in the kernel.
use ai_firewall.Prelude.{
  ℕ, ◌≡◌, refl, ap, ◌∙◌, Bool, Bool-cases, Option-cases, inl, inr, Option, none, some, List, [],
  ◌∷◌, retain, get, contains_key, is_some, if◌then◌else◌, arith,
}
use ai_firewall.Prelude.MapLaws.{get-insert, get-remove}
use ai_firewall.Addr.{Src, src_Eq, src_eq, src_eq_iff}
use ai_firewall.Detector.Float.{Float32}
use ai_firewall.Kernel.Maps.{live}
use ai_firewall.State.{remaining, manual_record}
use ai_firewall.State.Expiry.{remaining-live}
use ai_firewall.State.Blocklist.{BanMap, entries}
use ai_firewall.Daemon.{Shared}
use ai_firewall.Daemon.Bans.{sweep, sweep_entry, sweep_entries}

-- No key stands twice in the list, as in a map.
abbrev pub Distinct : {V : Type 0} → List (Src × V) → Type 0
Distinct [] = Unit {0}
Distinct ((i, v) ∷ m) = (get i m ≡ none) × Distinct m

-- A filter by the keys.
pub get-retain :
    {V : Type 0} (p : Src → Bool) (i : Src) (m : List (Src × V))
    → get i (retain (λ r. p r.0) m) ≡ (if p i then get i m else none)
get-retain p i [] = ground arith
get-retain p i ((j, v) ∷ m) = elim (Bool-cases (src_eq j i)) [
  | inl same ↦
      let e : j ≡ i = (src_eq_iff j i).0 same in
      let pe : p j ≡ p i = ap p e in ground (arith, get-retain p i m)
  | inr other ↦ ground (arith, get-retain p i m)
]

-- What an entry for the source, if there is one, makes of the knowledge of a record.
abbrev verdict : (Src → ℕ) → Src → Option ℕ → Bool → Bool
verdict clock i none before = before
verdict clock i (some e) before = is_some (remaining (clock i) e)

module _ (fl : Float32) (k : BanMap) where
  sweep_entry-record :
      (s : Shared fl) (ip i : Src) (left : Option ℕ)
      → contains_key i (sweep_entry fl k s ip left).records
        ≡ (if src_eq ip i then is_some left else contains_key i s.records)
  unfolding sweep_entry
  sweep_entry-record s ip i none = ground (arith, get-remove ip i s.records)
  sweep_entry-record s ip i (some left) =
      ground (arith, get-insert ip i manual_record s.records, src_eq_iff ip i)

  sweep_entries-record :
      (clock : Src → ℕ) (s : Shared fl) (i : Src) (es : List (Src × ℕ))
      → Distinct es
      → contains_key i (sweep_entries fl k clock s es).records
        ≡ verdict clock i (get i es) (contains_key i s.records)
  unfolding sweep_entries
  sweep_entries-record clock s i [] d = refl
  sweep_entries-record clock s i ((ip, e) ∷ es) d =
      let s' = sweep_entry fl k s ip (remaining (clock ip) e) in
      let ih = sweep_entries-record clock s' i es d.1 in
      let here = sweep_entry-record s ip i (remaining (clock ip) e) in
      elim (Bool-cases (src_eq ip i)) [
        | inl same ↦
            let eq : ip ≡ i = (src_eq_iff ip i).0 same in
            let gone : get i es ≡ none = rw eq at d.0 in
            rw same (ih ∙ rw gone (here ∙ rw (same, eq)))
        | inr other ↦ rw other (ih ∙ ap (verdict clock i (get i es)) (here ∙ rw other))
      ]

  -- After a sweep the daemon has a record of a source exactly when the ban that the kernel maps held
  -- on it was in force as the sweep looked at it: records of expired bans and of bans lifted by hand
  -- are gone, and bans entered by hand have one. Assumed: no source stands twice in the maps.
  pub sweep-live :
      (clock : Src → ℕ) (s : Shared fl) (i : Src)
      → Distinct (entries s.blocklist)
      → contains_key i (sweep fl k clock s).records ≡ live (clock i) (get i (entries s.blocklist))
  unfolding sweep live
  sweep-live clock s i d =
      let es = entries s.blocklist in
      let records = (sweep_entries fl k clock s es).records in
      let kept = get-retain (λ j. contains_key j es) i records in
      let swept = sweep_entries-record clock s i es d in
      elim (Option-cases (get i es)) [
        | inl absent ↦ rw (kept, absent)
        | inr (e, there) ↦
            let fine : contains_key i records ≡ is_some (remaining (clock i) e) =
              swept ∙ rw there in
            rw (kept, there) (fine ∙ remaining-live (clock i) e)
      ]
