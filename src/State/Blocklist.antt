-- ===== src/State/Blocklist.antt =====
-- ai-firewall/src/state.rs, `Blocklist`: the two ban maps as one list of sources. The maps are the
-- kernel's, and its insertion, which fails on a full map, and its removal are parameters.
use ai_firewall.Prelude.{
  ℕ, ◌≡◌, Bool, Option, none, some, List, [], ◌++◌, map, get, is_some, nat_eq, ◌==◌, if◌then◌else◌,
}
use ai_firewall.Addr.{Src, v4, v6}

pub record Blocklist : Type 0 where
  pub v4_map : List (ℕ × ℕ)
  pub v6_map : Option (List (ℕ × ℕ))

pub record BanMap : Type 0 where
  pub map_insert : List (ℕ × ℕ) → ℕ → ℕ → Option (List (ℕ × ℕ))
  pub map_remove : List (ℕ × ℕ) → ℕ → Option (List (ℕ × ℕ))

-- What a call that succeeds has done.
pub record BanMapLaws (k : BanMap) : Type 0 where
  pub get-map_insert :
      (m m' : List (ℕ × ℕ)) (a v j : ℕ)
      → k.map_insert m a v ≡ some m'
      → get j m' ≡ (if a == j then some v else get j m)
  pub get-map_remove :
      (m m' : List (ℕ × ℕ)) (a j : ℕ)
      → k.map_remove m a ≡ some m'
      → get j m' ≡ (if a == j then none else get j m)

abbrev with_v4 : Blocklist → Option (List (ℕ × ℕ)) → Option Blocklist
with_v4 b none = none
with_v4 b (some m) = some (record b { v4_map = m })

abbrev with_v6 : Blocklist → Option (List (ℕ × ℕ)) → Option Blocklist
with_v6 b none = none
with_v6 b (some m) = some (record b { v6_map = some m })

-- The expiry of a source in the maps.
unfoldable pub lookup : Blocklist → Src → Option ℕ
lookup b (v4 ip) = get ip b.v4_map
lookup b (v6 p) = elim b.v6_map [ none ↦ none | some m ↦ get p m ]

unfoldable pub contains : Blocklist → Src → Bool
unfolding lookup
contains b src = is_some (lookup b src)

unfoldable pub entries : Blocklist → List (Src × ℕ)
entries b =
    map (λ e. (v4 e.0, e.1)) b.v4_map
    ++ elim b.v6_map [ none ↦ [] | some m ↦ map (λ e. (v6 e.0, e.1)) m ]

module _ (k : BanMap) where
  unfoldable pub insert : Blocklist → Src → ℕ → Option Blocklist
  insert b (v4 ip) expiry = with_v4 b (k.map_insert b.v4_map ip expiry)
  insert b (v6 p) expiry = elim b.v6_map [
    | none ↦ none
    | some m ↦ with_v6 b (k.map_insert m p expiry)
  ]

  unfoldable pub remove : Blocklist → Src → Option Blocklist
  remove b (v4 ip) = with_v4 b (k.map_remove b.v4_map ip)
  remove b (v6 p) = elim b.v6_map [ none ↦ none | some m ↦ with_v6 b (k.map_remove m p) ]
