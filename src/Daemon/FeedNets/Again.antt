-- ===== src/Daemon/FeedNets/Again.antt =====
-- `apply_feeds` of ai-firewall/src/daemon.rs, once and once again.
use ai_firewall.Prelude.{
  ℕ, ◌≤◌, ◌≡◌, refl, Bool, Option-cases, inl, inr, true, false, not, Option, List, [], ◌∷◌, ◌++◌,
  map, retain, any, arith,
}
use ai_firewall.Text.{Text}
use ai_firewall.Kernel.Interface.{Bpf}
use ai_firewall.Config.Cidr.{Cidr, leading_ones}
use ai_firewall.Config.Cidr.Overlap.{IsNetwork}
use ai_firewall.Config.Settings.{Config, parse_all, trusted_cidrs}
use ai_firewall.Daemon.Apply.ConfigBans.{parse_all-IsNetwork}
use ai_firewall.Detector.Bounds.{All}
use ai_firewall.Feeds.{parse_each, reserved_texts}
use ai_firewall.Feeds.Spared.{Clear, All-append}
use ai_firewall.Feeds.Load.{Cache, load}
use ai_firewall.Feeds.Load.Cleared.{load-Clear, load-nets}
use ai_firewall.Daemon.FeedNets.{
  net_eq, difference_nets, spared_nets, FeedTable, remove_nets, insert_nets, apply_feeds,
}

-- What is tested against a longer list passes still.
any-grow :
    (n m : ℕ × ℕ) (ns : List (ℕ × ℕ)) → any (net_eq n) ns ≡ true → any (net_eq n) (m ∷ ns) ≡ true
any-grow n m ns h = ground arith

retain_none : (p : ℕ × ℕ → Bool) (ns : List (ℕ × ℕ)) → All (λ n. p n ≡ false) ns → retain p ns ≡ []
retain_none p [] h = refl
retain_none p (n ∷ ns) h = rw h.0 (retain_none p ns h.1)

found_in :
    (pre ns : List (ℕ × ℕ))
    → ((n : ℕ × ℕ) → any (net_eq n) ns ≡ true → any (net_eq n) pre ≡ true)
    → All (λ n. not (any (net_eq n) pre) ≡ false) ns
found_in pre [] inside = tt
found_in pre (n ∷ ns) inside =
    let own : any (net_eq n) pre ≡ true = inside n (ground arith) in
    (rw own refl, found_in pre ns (λ m h. inside m (any-grow m n ns h)))

difference-same : (ns : List (ℕ × ℕ)) → difference_nets ns ns ≡ []
unfolding difference_nets
difference-same ns = retain_none (λ n. not (any (net_eq n) ns)) ns (found_in ns ns (λ n h. h))

spared_nets-IsNetwork :
    (auto : List Cidr) (cfg : Config) → All IsNetwork auto → All IsNetwork (spared_nets auto cfg)
unfolding spared_nets trusted_cidrs
spared_nets-IsNetwork auto cfg h = elim (Option-cases (parse_all cfg.trusted)) [
  | inl bad ↦ rw bad (All-append IsNetwork auto [] h tt)
  | inr (cs, good) ↦
      rw good (All-append IsNetwork auto cs h (parse_all-IsNetwork cfg.trusted cs good))
]

-- The network as a pair shares no address with those of the list, and is a /8 or narrower.
abbrev pub FitPair : List Cidr → ℕ × ℕ → Type 0
FitPair spared n = (8 ≤ leading_ones n.1) × Clear spared (record { net = n.0; mask = n.1 })

pairs-FitPair :
    (spared cs : List Cidr)
    → All (λ c. (8 ≤ leading_ones c.mask) × Clear spared c) cs
    → All (FitPair spared) (map (λ c. (c.net, c.mask)) cs)
pairs-FitPair spared [] h = tt
pairs-FitPair spared (c ∷ cs) h = (h.0, pairs-FitPair spared cs h.1)

module _ (b : Bpf) where
  -- Let the networks of the host be as `Cidr::parse` makes them. `apply_feeds` records only networks
  -- that are a /8 or narrower and share no address with a reserved network, one of the host or a
  -- trusted one. Applied again to the same cached lists, it leaves the trie and the record as they
  -- are and reports no failure, also where insertions failed at first.
  pub apply_feeds-again :
      (cache : Cache) (auto : List Cidr) (cfg : Config) (k : FeedTable b)
      (results results' : List (Text × Option Text))
      → All IsNetwork auto
      → let k' = (apply_feeds b cache auto cfg k results).0 in
        let again = apply_feeds b cache auto cfg k' results' in
        All (FitPair (parse_each reserved_texts ++ spared_nets auto cfg)) k'.feed_nets
        × (again.0 ≡ k')
        × (again.1 ≡ 0)
  unfolding apply_feeds remove_nets insert_nets
  apply_feeds-again cache auto cfg k results results' networks =
      let spared = spared_nets auto cfg in
      let nets = (load cache spared cfg.feeds results).0 in
      let same : (load cache spared cfg.feeds results').0 ≡ nets =
        load-nets cache spared cfg.feeds results' results in
      let fit =
        load-Clear cache spared (spared_nets-IsNetwork auto cfg networks) cfg.feeds results in
      let nothing = difference-same (map (λ c. (c.net, c.mask)) nets) in
      (
        pairs-FitPair (parse_each reserved_texts ++ spared) nets fit.0,
        rw (same, nothing) refl,
        rw (same, nothing) refl,
      )
