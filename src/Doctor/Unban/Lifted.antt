-- ===== src/Doctor/Unban/Lifted.antt =====
-- The fix `unban-protected` of ai-firewall/src/doctor.rs and the check that offers it.
use ai_firewall.Prelude.{
  ℕ, ◌≡◌, refl, ◌∙◌, ap, Bool, Bool-cases, inl, inr, true, false, ◌&&◌, Option, none, some, List,
  [], ◌∷◌, map, any, length, retain, get, is_some, if◌then◌else◌, arith,
}
use ai_firewall.Text.{Text}
use ai_firewall.Addr.{Src, src_Eq, src_eq, src_eq_iff}
use ai_firewall.Detector.{Detector, is_protected}
use ai_firewall.Detector.Bounds.{All, All-map}
use ai_firewall.State.Blocklist.{Blocklist, BanMap, BanMapLaws, lookup, entries}
use ai_firewall.State.Entries.{RemovesPresent, get-entries, lookup-remove, remove_listed}
use ai_firewall.Daemon.Bans.Sweep.{Distinct}
use ai_firewall.Doctor.Checks.{Host, protected_bans, ban_findings, hit_findings, check_bans}
use ai_firewall.Doctor.Unban.{banned_sources, unban_each, unban_protected}

abbrev among : Src → List Src → Bool
among i ips = any (λ j. src_eq j i) ips

-- No two of the sources are the same.
abbrev Differ : List Src → Type 0
Differ [] = Unit {0}
Differ (i ∷ is) = All (λ j. src_eq i j ≡ false) is × Differ is

All-retain : (P : Src → Type 0) (p : Src → Bool) (is : List Src) → All P is → All P (retain p is)
All-retain P p [] h = tt
All-retain P p (i ∷ is) h = elim (Bool-cases (p i)) [
  | inl kept ↦ rw kept (h.0, All-retain P p is h.1)
  | inr gone ↦ rw gone (All-retain P p is h.1)
]

Differ-retain : (p : Src → Bool) (is : List Src) → Differ is → Differ (retain p is)
Differ-retain p [] h = tt
Differ-retain p (i ∷ is) h = elim (Bool-cases (p i)) [
  | inl kept ↦ rw kept (All-retain _ p is h.0, Differ-retain p is h.1)
  | inr gone ↦ rw gone (Differ-retain p is h.1)
]

absent_differs :
    (i : Src) (m : List (Src × ℕ))
    → get i m ≡ none
    → All (λ j. src_eq i j ≡ false) (map (λ e. e.0) m)
absent_differs i [] h = tt
absent_differs i ((j, e) ∷ m) h = elim (Bool-cases (src_eq j i)) [
  | inl same ↦ absurd (ground arith)
  | inr other ↦
      let turned : src_eq i j ≡ false = ground (arith, src_eq_iff i j, src_eq_iff j i) in
      let rest : get i m ≡ none = rw other at h in (turned, absent_differs i m rest)
]

keys-Differ : (m : List (Src × ℕ)) → Distinct m → Differ (map (λ e. e.0) m)
keys-Differ [] h = tt
keys-Differ ((i, e) ∷ m) h = (absent_differs i m h.0, keys-Differ m h.1)

hit :
    (guard : Detector) (i : Src) (m : List (Src × ℕ))
    → among i (protected_bans guard (map (λ e. e.0) m))
      ≡ (is_some (get i m) && is_protected guard i)
unfolding protected_bans
hit guard i [] = refl
hit guard i ((j, e) ∷ m) = elim (Bool-cases (src_eq j i)) [
  | inl same ↦
      let at : j ≡ i = (src_eq_iff j i).0 same in
      let alike : is_protected guard j ≡ is_protected guard i = ap (is_protected guard) at in
      ground (arith, hit guard i m)
  | inr other ↦ ground (arith, hit guard i m)
]

-- Those that differ from a source that is gone are still there.
still_there :
    (b b' : Blocklist) (ip : Src) (ips : List Src)
    → ((i : Src) → lookup b' i ≡ (if src_eq ip i then none else lookup b i))
    → All (λ j. src_eq ip j ≡ false) ips
    → All (λ j. is_some (lookup b j) ≡ true) ips
    → All (λ j. is_some (lookup b' j) ≡ true) ips
still_there b b' ip [] found differ there = tt
still_there b b' ip (j ∷ js) found differ there =
    let same : lookup b' j ≡ lookup b j = found j ∙ rw differ.0 refl in
    (rw same there.0, still_there b b' ip js found differ.1 there.1)

keys-there : (m : List (Src × ℕ)) → All (λ j. is_some (get j m) ≡ true) (map (λ e. e.0) m)
keys-there [] = tt
keys-there ((i, e) ∷ m) =
    let own : is_some (get i ((i, e) ∷ m)) ≡ true = ground (arith, src_eq_iff i i) in
    (own, All-map (λ j h. ground arith) (map (λ e. e.0) m) (keys-there m))

-- No listed source is protected, if those that can be looked up are not.
none_protected :
    (guard : Detector) (m : List (Src × ℕ))
    → ((i : Src) → is_some (get i m) ≡ true → is_protected guard i ≡ false)
    → protected_bans guard (map (λ e. e.0) m) ≡ []
unfolding protected_bans
none_protected guard [] free = refl
none_protected guard ((j, e) ∷ m) free =
    let own : is_protected guard j ≡ false = free j (ground (arith, src_eq_iff j j)) in
    rw own (none_protected guard m (λ i h. free i (ground arith)))

module _ (k : BanMap) (laws : BanMapLaws k) (present : RemovesPresent k) where
  unban_each-lookup :
      (b : Blocklist) (ips : List Src)
      → All (λ ip. is_some (lookup b ip) ≡ true) ips
      → Differ ips
      → ((unban_each k b ips).1 ≡ true)
        × ((i : Src) → lookup (unban_each k b ips).0 i ≡ (if among i ips then none else lookup b i))
  unfolding unban_each
  unban_each-lookup b [] there differ = (refl, λ i. refl)
  unban_each-lookup b (ip ∷ ips) there differ =
      let (b', done) = remove_listed k present b ip there.0 in
      let found = λ (i : Src). lookup-remove k laws b b' ip i done in
      let ih = unban_each-lookup b' ips (still_there b b' ip ips found differ.0 there.1) differ.1 in
      rw (unban_each, done)
        (
          ih.0,
          λ i. elim (Bool-cases (src_eq ip i)) [
            | inl same ↦ rw same (ih.1 i ∙ rw (found i) (rw same (if_same (among i ips) none)))
            | inr other ↦ rw other (ih.1 i ∙ rw (found i) (rw other refl))
          ],
        )
    where
      if_same : (b : Bool) (o : Option ℕ) → (if b then o else o) ≡ o
      if_same b o = ground arith

  unban_protected-lookup :
      (guard : Detector) (b : Blocklist)
      → Distinct (entries b)
      → ((unban_protected k guard b).1 ≡ some (length (protected_bans guard (banned_sources b))))
        × ((i : Src)
            → lookup (unban_protected k guard b).0 i
              ≡ (if is_protected guard i then none else lookup b i))
  unfolding unban_protected protected_bans
  unban_protected-lookup guard b distinct =
      let keys = banned_sources b in
      let listed : All (λ j. is_some (lookup b j) ≡ true) keys =
        All-map listed_found keys (keys-there (entries b)) in
      let done =
        unban_each-lookup b (protected_bans guard keys)
          (All-retain _ (λ i. is_protected guard i) keys listed)
          (Differ-retain (λ i. is_protected guard i) keys (keys-Differ (entries b) distinct)) in
      (rw done.0 refl, λ i. done.1 i ∙ both i)
    where
      listed_found : (j : Src) → is_some (get j (entries b)) ≡ true → is_some (lookup b j) ≡ true
      listed_found j h = rw (← get-entries b j) h

      both :
          (i : Src)
          → (if among i (protected_bans guard (banned_sources b)) then none else lookup b i)
            ≡ (if is_protected guard i then none else lookup b i)
      both i = rw (hit guard i (entries b)) (rw (get-entries b i) (ground arith))

  -- Let no source be twice in the ban maps, and let the removal of a source that is in them succeed.
  -- Then `ai-firewall fix unban-protected` succeeds and reports the number of protected sources that
  -- were banned, `check_bans` finds nothing in the maps that it leaves, and every other ban keeps its
  -- expiry.
  pub unban_protected-check_bans :
      (show : Src → Text) (h : Host) (b : Blocklist)
      → Distinct (entries b)
      → let fixed = unban_protected k h.guard b in
        (fixed.1 ≡ some (length (protected_bans h.guard (banned_sources b))))
        × (check_bans show (record h { banned = some (banned_sources fixed.0) }) ≡ [])
        × ((i : Src) → is_protected h.guard i ≡ false → lookup fixed.0 i ≡ lookup b i)
  unfolding check_bans ban_findings hit_findings
  unban_protected-check_bans show h b distinct =
      let (count, lifted) = unban_protected-lookup h.guard b distinct in
      (count, found_nothing, λ i spared. lifted i ∙ rw spared refl)
    where
      free :
          (i : Src)
          → is_some (get i (entries (unban_protected k h.guard b).0)) ≡ true
          → is_protected h.guard i ≡ false
      free i listed =
          let b' = (unban_protected k h.guard b).0 in
          let there : is_some (lookup b' i) ≡ true = rw (get-entries b' i) at listed in
          let gone = (unban_protected-lookup h.guard b distinct).1 i in ground arith

      found_nothing :
          check_bans show
            (record h { banned = some (banned_sources (unban_protected k h.guard b).0) })
          ≡ []
      found_nothing =
          let clean = none_protected h.guard (entries (unban_protected k h.guard b).0) free in
          elim (Bool-cases h.is_root) [
            | inl root ↦ rw (root, clean) refl
            | inr other ↦ rw other refl
          ]
