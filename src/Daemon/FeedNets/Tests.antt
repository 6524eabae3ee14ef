-- ===== src/Daemon/FeedNets/Tests.antt =====
-- `apply_feeds` of ai-firewall/src/daemon.rs on concrete lists.
use ai_firewall.Prelude.{◌≡◌, refl, none, List, [], ◌∷◌, ◌++◌, arith}
use ai_firewall.Text.{codes}
use ai_firewall.Config.Cidr.{Cidr, network}
use ai_firewall.Config.Settings.{Config}
use ai_firewall.Detector.Bounds.{All}
use ai_firewall.Feeds.{parse_each, reserved_texts}
use ai_firewall.Feeds.Load.Tests.{cache}
use ai_firewall.Posture.Tests.{cfg}
use ai_firewall.Kernel.Sample.{bpf}
use ai_firewall.Daemon.FeedNets.{FeedTable, apply_feeds, spared_nets, difference_nets}
use ai_firewall.Daemon.FeedNets.Again.{FitPair, apply_feeds-again}

abbrev listed : Config
listed = record cfg {
  feeds = record {
    lists = [];
    urls = codes "https://example.org/a" ∷ codes "https://example.org/b" ∷ [];
    refresh_hours = 24;
  };
}

-- The network of the host.
abbrev host : List Cidr
host = network 0x09090900 24 ∷ []

-- One network that is still listed, and one that no list has any more.
abbrev table : FeedTable bpf
table = record {
  feeds = λ key. none;
  feed_nets = (0x01020300, 0xFFFFFF00) ∷ (0x05060700, 0xFFFFFF00) ∷ [];
}

one_gone :
    difference_nets table.feed_nets ((0x01020300, 0xFFFFFF00) ∷ []) ≡ (0x05060700, 0xFFFFFF00) ∷ []
unfolding difference_nets
one_gone = refl

apply_feeds-again_example :
    let k = (apply_feeds bpf cache host listed table []).0 in
    let again = apply_feeds bpf cache host listed k [] in
    All (FitPair (parse_each reserved_texts ++ spared_nets host listed)) k.feed_nets
    × (again.0 ≡ k)
    × (again.1 ≡ 0)
apply_feeds-again_example =
    apply_feeds-again bpf cache host listed table [] []
      ((0x09090900, 24, omega arith, omega arith, refl), tt)
