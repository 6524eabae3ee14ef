-- ===== src/Daemon/Apply/ConfigBans.antt =====
-- The bans of the configuration, before and after `apply_config`.
use ai_firewall.Prelude.{
  ℕ, ◌<◌, ◌^◌, ◌≡◌, refl, sym, ap, Bool, true, false, not, ◌&&◌, ◌||◌, Option, none, some, List, [],
  ◌∷◌, get, insert, remove, any, nat_eq, ==_iff, arith, Bool-cases, Option-cases, inl, inr,
  if◌then◌else◌, zero, suc, ◌+◌, ◌-◌, subst,
}
use mathlib.Core.Bool.{false≢true}
use ai_firewall.Prelude.MapLaws.{get-insert, get-remove}
use ai_firewall.Addr.{Src, v4, v6, src_Eq, src_eq, src_eq_iff}
use ai_firewall.Wire.{ban_forever}
use ai_firewall.Config.Cidr
use ai_firewall.Config.Cidr.{Cidr, u32_max}
use ai_firewall.Config.Cidr.Overlap.{IsNetwork, parse-IsNetwork}
use ai_firewall.Kernel.Maps.{live}
use ai_firewall.Text.{Text}
use ai_firewall.Config.Settings.{Config, enforce, blocked_cidrs, parse_all}
use ai_firewall.Detector.Bounds.{All}
use ai_firewall.Detector.{reconfigure}
use ai_firewall.Detector.Float.{Float32}
use ai_firewall.State.{BanRecord, expiry_for}
use ai_firewall.State.Blocklist.{Blocklist, BanMap, BanMapLaws, lookup}
use ai_firewall.State.Blocklist
use ai_firewall.Daemon.{Shared}
use ai_firewall.Daemon.Bans.{try_remove}
use ai_firewall.Daemon.Bans.Enact.{lookup-insert}
use ai_firewall.Daemon.Bans.Sweep.{Distinct}
use ai_firewall.Daemon.Apply.{
  listed, addresses, addresses_from, member, config_record, from_config, stale, lift_each,
  enter_each, apply_bans, apply_shared, set_dirty,
}
use ai_firewall.Daemon.Apply.Listed.{member-listed, member-append}

-- The kernel's map refuses a removal only of a key that it does not have.
abbrev pub Removes : BanMap → Type 0
Removes k = (m : List (ℕ × ℕ)) (a : ℕ) → k.map_remove m a ≡ none → get a m ≡ none

-- A record of the configuration, if it is one.
abbrev is_config : Option BanRecord → Bool
is_config none = false
is_config (some r) = from_config r

member-stale :
    (ips : List Src) (records : List (Src × BanRecord)) (i : Src)
    → Distinct records
    → member i (stale ips records) ≡ (is_config (get i records) && not (member i ips))
unfolding stale
member-stale ips [] i d = refl
member-stale ips ((j, r) ∷ rs) i d = elim (Bool-cases (src_eq j i)) [
  | inl same ↦
      let e : j ≡ i = (src_eq_iff j i).0 same in
      let alone : get i rs ≡ none = rw e at d.0 in
      let alike : member j ips ≡ member i ips = ap (λ x. member x ips) e in
      ground (arith, member-stale ips rs i d.1)
  | inr other ↦ ground (arith, member-stale ips rs i d.1)
]

lookup-try_remove :
    (fl : Float32) (k : BanMap) (laws : BanMapLaws k) (removes : Removes k) (b : Blocklist)
    (ip i : Src)
    → lookup (try_remove fl k b ip) i ≡ (if src_eq ip i then none else lookup b i)
unfolding try_remove Blocklist.remove lookup
lookup-try_remove fl k laws removes b (v4 a) (v4 j) =
    elim (Option-cases (k.map_remove b.v4_map a)) [
      | inl fails ↦ ground (arith, removes b.v4_map a fails, ==_iff a j)
      | inr (m, done) ↦ ground (arith, laws.get-map_remove b.v4_map m a j done)
    ]
lookup-try_remove fl k laws removes b (v4 a) (v6 q) =
    elim (Option-cases (k.map_remove b.v4_map a)) [
      | inl fails ↦ rw (fails, try_remove) refl
      | inr (m, done) ↦ rw (done, try_remove) refl
    ]
lookup-try_remove fl k laws removes b (v6 p) (v4 j) = elim (Option-cases b.v6_map) [
  | inl e ↦ ground arith
  | inr (old, e) ↦ ground (arith, Option-cases (k.map_remove old p))
]
lookup-try_remove fl k laws removes b (v6 p) (v6 q) = elim (Option-cases b.v6_map) [
  | inl e ↦ ground arith
  | inr (old, e) ↦ elim (Option-cases (k.map_remove old p)) [
    | inl fails ↦ ground (arith, removes old p fails, ==_iff p q)
    | inr (m, done) ↦ ground (arith, laws.get-map_remove old m p q done)
  ]
]

module _ (fl : Float32) (k : BanMap) (laws : BanMapLaws k) (removes : Removes k) where
  lift_each-lookup :
      (ips : List Src) (s : Shared fl) (i : Src)
      → (lookup (lift_each fl k ips s).blocklist i
          ≡ (if member i ips then none else lookup s.blocklist i))
        × (get i (lift_each fl k ips s).records ≡ (if member i ips then none else get i s.records))
  unfolding lift_each
  lift_each-lookup [] s i = (refl, refl)
  lift_each-lookup (ip ∷ ips) s i =
      let s' : Shared fl = record s {
        blocklist = try_remove fl k s.blocklist ip;
        records = remove ip s.records;
      } in
      let rest = lift_each-lookup ips s' i in
      let bans = lookup-try_remove fl k laws removes s.blocklist ip i in
      let records = get-remove ip i s.records in
      (ground (arith, rest.0, bans), ground (arith, rest.1, records))

  enter_each-lookup :
      (boot_ns : ℕ) (ips : List Src) (s s' : Shared fl) (i : Src)
      → enter_each fl k boot_ns ips s ≡ (s', true)
      → (lookup s'.blocklist i ≡ (if member i ips then some ban_forever else lookup s.blocklist i))
        × (get i s'.records ≡ (if member i ips then some config_record else get i s.records))
  unfolding enter_each expiry_for
  enter_each-lookup boot_ns [] s s' i h =
      let e : s ≡ s' = ap (λ (p : Shared fl × Bool). p.0) h in
      (
        ap (λ (t : Shared fl). lookup t.blocklist i) (sym e),
        ap (λ (t : Shared fl). get i t.records) (sym e),
      )
  enter_each-lookup boot_ns (ip ∷ ips) s s' i h =
      elim (Option-cases (Blocklist.insert k s.blocklist ip ban_forever)) [
        | inl full ↦
            absurd (false≢true (ap (λ (p : Shared fl × Bool). p.1) (rw (full, enter_each) at h)))
        | inr (b, done) ↦
            let next : Shared fl = record s {
              blocklist = b;
              records = insert ip config_record s.records;
            } in
            let rest = enter_each-lookup boot_ns ips next s' i (rw (done, enter_each) at h) in
            let bans = lookup-insert k laws s.blocklist b ip i ban_forever done in
            let records = get-insert ip i config_record s.records in
            (ground (arith, rest.0, bans), ground (arith, rest.1, records))
      ]

pub parse_all-IsNetwork :
    (ts : List Text) (cs : List Cidr) → parse_all ts ≡ some cs → All IsNetwork cs
unfolding parse_all
parse_all-IsNetwork [] cs h = let none_left : [] ≡ cs = cc in subst (All IsNetwork) none_left tt
parse_all-IsNetwork (t ∷ ts) cs h = elim (Option-cases (Cidr.parse t)) [
  | inl bad ↦ absurd (cc (rw (bad, parse_all) at h))
  | inr (c, fine) ↦ elim (Option-cases (parse_all ts)) [
    | inl bad ↦ absurd (cc (rw (fine, bad, parse_all) at h))
    | inr (more, good) ↦
        let made : c ∷ more ≡ cs = cc (rw (fine, good, parse_all) at h) in
        subst (All IsNetwork) made (parse-IsNetwork t c fine, parse_all-IsNetwork ts more good)
  ]
]

-- Whether the configuration blocks the source, and its number fits an address.
abbrev pub blocks : List Cidr → Src → Bool
blocks cs (v4 ip) = any (λ c. Cidr.contains c ip) cs
blocks cs (v6 p) = false

abbrev pub Fits : Src → Type 0
Fits (v4 ip) = ip < 2 ^ 32
Fits (v6 p) = Unit {0}

addresses-v6 : (n ip p : ℕ) → member (v6 p) (addresses_from n ip) ≡ false
unfolding addresses_from
addresses-v6 zero ip p = refl
addresses-v6 (suc n) ip p = addresses-v6 n (ip + 1) p

listed-v6 : (cs : List Cidr) (p : ℕ) → member (v6 p) (listed cs) ≡ false
unfolding listed addresses
listed-v6 [] p = refl
listed-v6 (c ∷ cs) p = ground (
  arith,
  member-append (v6 p) (addresses c) (listed cs),
  addresses-v6 (u32_max - c.mask + 1) c.net p,
  listed-v6 cs p,
)

member-blocks :
    (cs : List Cidr) (i : Src) → All IsNetwork cs → Fits i → member i (listed cs) ≡ blocks cs i
member-blocks cs (v4 ip) n h = member-listed cs ip n h
member-blocks cs (v6 p) n h = listed-v6 cs p

-- What becomes of the ban on a source, at a time `now` of the kernel, and of its record.
pub record IsConfigured {fl : Float32} (cs : List Cidr) (now : ℕ) (i : Src) (s s' : Shared fl)
    : Type 0 where
  pub ban :
      live now (lookup s'.blocklist i)
      ≡ (blocks cs i || not (is_config (get i s.records)) && live now (lookup s.blocklist i))
  pub kept : get i s'.records ≡ (
      if blocks cs i
      then some config_record
      else if is_config (get i s.records)
      then none
      else get i s.records)

ban_left :
    (now : ℕ) (on off : Bool) (before : Option ℕ)
    → live now (if on then some ban_forever else if off && not on then none else before)
      ≡ (on || not off && live now before)
unfolding live
ban_left now true off before = refl
ban_left now false true before = refl
ban_left now false false before = refl

record_left :
    (on off : Bool) (before : Option BanRecord)
    → ◌≡◌ {A = Option BanRecord}
        (if on then some config_record else if off && not on then none else before)
        (if on then some config_record else if off then none else before)
record_left true off before = refl
record_left false true before = refl
record_left false false before = refl

module _ (fl : Float32) (k : BanMap) (laws : BanMapLaws k) (removes : Removes k) where
  apply_bans-IsConfigured :
      (boot_ns now : ℕ) (cs : List Cidr) (s s' : Shared fl) (i : Src)
      → All IsNetwork cs
      → Fits i
      → Distinct s.records
      → apply_bans fl k boot_ns (listed cs) s ≡ (s', true)
      → IsConfigured cs now i s s'
  unfolding apply_bans
  apply_bans-IsConfigured boot_ns now cs s s' i n fit d h =
      let off = stale (listed cs) s.records in
      let lifted = lift_each-lookup fl k laws removes off s i in
      let entered =
        enter_each-lookup fl k laws removes boot_ns (listed cs) (lift_each fl k off s) s' i h in
      let is_off = member-stale (listed cs) s.records i d in
      let is_on = member-blocks cs i n fit in
      record {
        ban =
            rw (entered.0, lifted.0, is_off, is_on)
              (ban_left now (blocks cs i) (is_config (get i s.records)) (lookup s.blocklist i));
        kept =
            rw (entered.1, lifted.1, is_off, is_on)
              (record_left (blocks cs i) (is_config (get i s.records)) (get i s.records));
      }

  set_dirty-some :
      (r : Shared fl × Bool) (s' : Shared fl)
      → set_dirty fl k r ≡ (s', true)
      → (t : Shared fl) × (r ≡ (t, true)) × (record t { dirty = true } ≡ s')
  set_dirty-some (t, false) s' h = absurd (false≢true (ap (λ (p : Shared fl × Bool). p.1) h))
  set_dirty-some (t, true) s' h = (t, refl, ap (λ (p : Shared fl × Bool). p.0) h)

  -- After a configuration is applied without an error, the kernel drops a source exactly when one of
  -- the blocked networks contains it, at any time, or a ban on it that the configuration had not
  -- made before is in force; the blocked sources have a record of the configuration, earlier records
  -- of the configuration are gone, and all others are unchanged. Assumed: the removal from the ban
  -- map fails only for a key that is not there, and no source stands twice in the records.
  pub apply_shared-IsConfigured :
      (boot_ns now : ℕ) (cfg : Config) (cs : List Cidr) (s s' : Shared fl) (i : Src)
      → Fits i
      → Distinct s.records
      → blocked_cidrs cfg ≡ some cs
      → apply_shared fl k boot_ns cfg s ≡ (s', true)
      → IsConfigured cs now i s s'
  unfolding apply_shared blocked_cidrs
  apply_shared-IsConfigured boot_ns now cfg cs s s' i fit d parsed h =
      let before : Shared fl = record s {
        enforce = enforce cfg;
        notify_bans = cfg.notify.bans;
        detector = reconfigure s.detector cfg.detector cfg.bans;
      } in
      let (t, done, made) =
        set_dirty-some (apply_bans fl k boot_ns (listed cs) before) s'
          (rw (parsed, apply_shared) at h) in
      let nets = parse_all-IsNetwork cfg.blocked cs parsed in
      let c = apply_bans-IsConfigured boot_ns now cs before t i nets fit d done in
      subst (IsConfigured cs now i s) made (record { ban = c.ban; kept = c.kept })
