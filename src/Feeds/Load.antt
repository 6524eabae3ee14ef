-- ===== src/Feeds/Load.antt =====
-- `load` of ai-firewall/src/feeds.rs. The cached files and their times are arguments.
pub mod Cleared
pub mod Tests
use ai_firewall.Prelude.{
  ℕ, Bool, ◌&&◌, ◌||◌, Option, none, some, List, [], ◌∷◌, ◌++◌, map, length, unwrap_or, leb, ◌==◌,
  if◌then◌else◌,
}
use ai_firewall.Text.{Text, codes, text_eq}
use ai_firewall.Config.Cidr.{Cidr}
use ai_firewall.Feeds.{FeedConfig}
use ai_firewall.Feeds.{FeedState, parse, sources, sort_keys, dedup_keys}

-- The text of a file of the cache, and the time that it was written, where there is one.
pub record Cache : Type 0 where
  pub read : Text → Option Text
  pub modified : Text → Option ℕ

abbrev is_safe : ℕ → Bool
is_safe c =
    (leb b'0' c && leb c b'9')
    || ((leb b'a' c && leb c b'z') || ((leb b'A' c && leb c b'Z') || c == b'-'))

-- The name of the file in the cache's directory.
unfoldable pub cache_path : Text → Text
cache_path name = map (λ c. if is_safe c then c else b'_') name ++ codes ".txt"

-- `find(|e| e.0 == name).and_then(|e| e.1.clone())`
unfoldable pub error_of : Text → List (Text × Option Text) → Option Text
error_of name [] = none
error_of name (e ∷ es) = if text_eq e.0 name then e.1 else error_of name es

module _ (cache : Cache) (protected : List Cidr) where
  unfoldable pub cached : Text → List Cidr
  unfolding cache_path
  cached name = parse (unwrap_or (cache.read (cache_path name)) []) protected

  abbrev pub state_of : List (Text × Option Text) → Text → FeedState
  state_of errors name = record {
    name = name;
    entries = length (cached name);
    updated_unix = unwrap_or (cache.modified (cache_path name)) 0;
    error = error_of name errors;
  }

  unfoldable pub load_each :
      List (Text × Option Text) → List (Text × Text) → List Cidr × List FeedState
  load_each errors [] = ([], [])
  load_each errors (s ∷ ss) =
      let rest = load_each errors ss in (cached s.0 ++ rest.0, state_of errors s.0 ∷ rest.1)

  unfoldable pub load : FeedConfig → List (Text × Option Text) → List Cidr × List FeedState
  load cfg errors =
      let all = load_each errors (sources cfg) in (dedup_keys (sort_keys all.0), all.1)
