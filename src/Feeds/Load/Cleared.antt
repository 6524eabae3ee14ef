-- ===== src/Feeds/Load/Cleared.antt =====
-- The networks that `load` of ai-firewall/src/feeds.rs hands to the kernel.
use ai_firewall.Prelude.{◌≤◌, ◌≡◌, refl, ap, List, [], ◌∷◌, ◌++◌, map, Option}
use ai_firewall.Text.{Text}
use ai_firewall.Config.Cidr.{Cidr, leading_ones}
use ai_firewall.Config.Cidr.Overlap.{IsNetwork}
use ai_firewall.Feeds.{FeedConfig}
use ai_firewall.Detector.Bounds.{All}
use ai_firewall.Feeds.{parse_each, reserved_texts, sources, sort_keys, dedup_keys}
use ai_firewall.Feeds.Spared.{Clear, All-append, All-sort_keys, All-dedup_keys, parse-Clear}
use ai_firewall.Feeds.Load.{Cache, cached, load_each, load}

module _ (cache : Cache) (protected : List Cidr) (networks : All IsNetwork protected) where
  -- At least a /8, and clear of what is reserved or protected.
  abbrev Fit : Cidr → Type 0
  Fit c = (8 ≤ leading_ones c.mask) × Clear (parse_each reserved_texts ++ protected) c

  load_each-Fit :
      (errors : List (Text × Option Text)) (ss : List (Text × Text))
      → All Fit (load_each cache protected errors ss).0
  unfolding load_each cached
  load_each-Fit errors [] = tt
  load_each-Fit errors (s ∷ ss) =
      All-append Fit (cached cache protected s.0) (load_each cache protected errors ss).0
        (parse-Clear _ protected networks) (load_each-Fit errors ss)

  load_each-names :
      (errors : List (Text × Option Text)) (ss : List (Text × Text))
      → map (λ f. f.name) (load_each cache protected errors ss).1 ≡ map (λ s. s.0) ss
  unfolding load_each
  load_each-names errors [] = refl
  load_each-names errors (s ∷ ss) = ap (λ names. s.0 ∷ names) (load_each-names errors ss)

  -- Let the protected networks be as `Cidr::parse` makes them. Whatever the cached lists hold, every
  -- network that is loaded is a /8 or narrower and shares no address with a reserved network, nor with
  -- a protected one; and there is one state for each source, in their order.
  pub load-Clear :
      (cfg : FeedConfig) (errors : List (Text × Option Text))
      → let (all, states) = load cache protected cfg errors in
        All (λ c. (8 ≤ leading_ones c.mask) × Clear (parse_each reserved_texts ++ protected) c) all
        × (map (λ f. f.name) states ≡ map (λ s. s.0) (sources cfg))
  unfolding load
  load-Clear cfg errors =
      let nets = (load_each cache protected errors (sources cfg)).0 in
      (
        All-dedup_keys Fit (sort_keys nets)
            (All-sort_keys Fit nets (load_each-Fit errors (sources cfg))),
        load_each-names errors (sources cfg),
      )

module _ (cache : Cache) (protected : List Cidr) where
  load_each-nets :
      (errors errors' : List (Text × Option Text)) (ss : List (Text × Text))
      → (load_each cache protected errors ss).0 ≡ (load_each cache protected errors' ss).0
  unfolding load_each
  load_each-nets errors errors' [] = refl
  load_each-nets errors errors' (s ∷ ss) =
      ap (λ nets. cached cache protected s.0 ++ nets) (load_each-nets errors errors' ss)

  -- What is loaded does not depend on how the downloads went.
  pub load-nets :
      (cfg : FeedConfig) (errors errors' : List (Text × Option Text))
      → (load cache protected cfg errors).0 ≡ (load cache protected cfg errors').0
  unfolding load
  load-nets cfg errors errors' =
      ap (λ nets. dedup_keys (sort_keys nets)) (load_each-nets errors errors' (sources cfg))
