-- ===== src/Daemon/FeedNets.antt =====
-- ai-firewall/src/daemon.rs, `apply_feeds`: the networks of the cached feeds in the kernel's trie. The
-- logging and the history are not modelled.
pub mod Again
pub mod Tests
use ai_firewall.Prelude.{
  ℕ, suc, ◌/◌, ◌%◌, ◌^◌, Bool, not, ◌&&◌, Option, none, some, List, [], ◌∷◌, ◌++◌, map, retain, any,
  unwrap_or, ◌==◌, if◌then◌else◌,
}
use ai_firewall.Text.{Text}
use ai_firewall.Kernel.Interface.{Bpf}
use ai_firewall.Kernel.Policy.{be32}
use ai_firewall.Config.Cidr.{Cidr, leading_ones}
use ai_firewall.Config.Settings.{Config, trusted_cidrs}
use ai_firewall.Feeds.{FeedState}
use ai_firewall.Feeds.Load.{Cache, load}

abbrev pub net_eq : ℕ × ℕ → ℕ × ℕ → Bool
net_eq a b = a.0 == b.0 && a.1 == b.1

-- `HashSet::difference`
unfoldable pub difference_nets : List (ℕ × ℕ) → List (ℕ × ℕ) → List (ℕ × ℕ)
difference_nets xs ys = retain (λ x. not (any (net_eq x) ys)) xs

-- `auto ++ trusted`: what no feed may block.
unfoldable pub spared_nets : List Cidr → Config → List Cidr
spared_nets auto cfg = auto ++ unwrap_or (trusted_cidrs cfg) []

module _ (b : Bpf) where
  open b use {Trie}

  -- The trie, and the set of what was last wanted in it.
  pub record FeedTable : Type 0 where
    pub feeds : Trie
    pub feed_nets : List (ℕ × ℕ)

  unfoldable pub remove_nets : List (ℕ × ℕ) → Trie → Trie
  remove_nets [] t = t
  remove_nets ((net, mask) ∷ ns) t =
      remove_nets ns (b.trie_remove t (leading_ones mask) (be32 net []))

  -- The trie, and the number of insertions that failed.
  unfoldable pub insert_nets : List (ℕ × ℕ) → Trie → Trie × ℕ
  insert_nets [] t = (t, 0)
  insert_nets ((net, mask) ∷ ns) t = elim (b.trie_insert t (leading_ones mask) (be32 net []) 1) [
    | none ↦ let rest = insert_nets ns t in (rest.0, suc rest.1)
    | some t' ↦ insert_nets ns t'
  ]

  -- `auto` is what `net::auto_protected` returns. The table, how many did not fit, and the states.
  unfoldable pub apply_feeds :
      Cache
      → List Cidr
      → Config
      → FeedTable
      → List (Text × Option Text)
      → FeedTable × ℕ × List FeedState
  unfolding remove_nets insert_nets difference_nets spared_nets
  apply_feeds cache auto cfg k results =
      let (nets, states) = load cache (spared_nets auto cfg) cfg.feeds results in
      let wanted = map (λ c. (c.net, c.mask)) nets in
      let t = remove_nets (difference_nets k.feed_nets wanted) k.feeds in
      let (t', failed) = insert_nets (difference_nets wanted k.feed_nets) t in
      (record { feeds = t'; feed_nets = wanted }, failed, states)
