-- ===== src/Feeds/Load/Tests.antt =====
-- `load` of ai-firewall/src/feeds.rs on concrete lists.
use ai_firewall.Prelude.{◌≡◌, refl, some}
use ai_firewall.Text.{codes}
use ai_firewall.Feeds.Load.{Cache, cache_path}

abbrev pub cache : Cache
cache = record {
  read = λ name. some (codes "1.2.3.0/24 ; spam\n10.0.0.0/8\n9.9.9.9\n");
  modified = λ name. some 1_000;
}

escaped : cache_path (codes "a/../b-1") ≡ codes "a____b-1.txt"
unfolding cache_path
escaped = refl
