-- ===== src/State/Entries.antt =====
-- `Blocklist` of ai-firewall/src/state.rs: what `entries` lists and what `remove` changes.
use ai_firewall.Prelude.{
  ℕ, ◌≡◌, refl, ◌∙◌, Option-cases, inl, inr, true, none, some, List, [], ◌∷◌, ◌++◌, map, get,
  is_some, nat_eq, if◌then◌else◌, arith,
}
use ai_firewall.Addr.{Src, v4, v6, src_Eq, src_eq}
use ai_firewall.State.Blocklist.{Blocklist, BanMap, BanMapLaws, lookup, entries}
use ai_firewall.State.Blocklist

-- The removal of a source that is in a map succeeds.
pub record RemovesPresent (k : BanMap) : Type 0 where
  pub removes :
      (m : List (ℕ × ℕ)) (a : ℕ) → is_some (get a m) ≡ true → is_some (k.map_remove m a) ≡ true

abbrev tag4 : List (ℕ × ℕ) → List (Src × ℕ)
tag4 m = map (λ e. (v4 e.0, e.1)) m

abbrev tag6 : List (ℕ × ℕ) → List (Src × ℕ)
tag6 m = map (λ e. (v6 e.0, e.1)) m

get-tag4 :
    (m : List (ℕ × ℕ)) (rest : List (Src × ℕ)) (a : ℕ)
    → get (v4 a) rest ≡ none
    → get (v4 a) (tag4 m ++ rest) ≡ get a m
get-tag4 [] rest a h = h
get-tag4 ((j, e) ∷ m) rest a h = ground (arith, get-tag4 m rest a h)

skip-tag4 :
    (m : List (ℕ × ℕ)) (rest : List (Src × ℕ)) (p : ℕ)
    → get (v6 p) (tag4 m ++ rest) ≡ get (v6 p) rest
skip-tag4 [] rest p = refl
skip-tag4 ((j, e) ∷ m) rest p = skip-tag4 m rest p

get-tag6 : (m : List (ℕ × ℕ)) (p : ℕ) → get (v6 p) (tag6 m) ≡ get p m
get-tag6 [] p = refl
get-tag6 ((j, e) ∷ m) p = ground (arith, get-tag6 m p)

skip-tag6 : (m : List (ℕ × ℕ)) (a : ℕ) → get (v4 a) (tag6 m) ≡ none
skip-tag6 [] a = refl
skip-tag6 ((j, e) ∷ m) a = skip-tag6 m a

-- The list of entries has what the maps have.
pub get-entries : (b : Blocklist) (i : Src) → get i (entries b) ≡ lookup b i
unfolding entries lookup
get-entries b (v4 a) = elim (Option-cases b.v6_map) [
  | inl missing ↦ rw missing (get-tag4 b.v4_map [] a refl)
  | inr (m, there) ↦ rw there (get-tag4 b.v4_map (tag6 m) a (skip-tag6 m a))
]
get-entries b (v6 p) = elim (Option-cases b.v6_map) [
  | inl missing ↦ rw missing (skip-tag4 b.v4_map [] p)
  | inr (m, there) ↦ rw there (skip-tag4 b.v4_map (tag6 m) p ∙ get-tag6 m p)
]

pub lookup-remove :
    (k : BanMap) (laws : BanMapLaws k) (b b' : Blocklist) (src i : Src)
    → Blocklist.remove k b src ≡ some b'
    → lookup b' i ≡ (if src_eq src i then none else lookup b i)
unfolding Blocklist.remove lookup
lookup-remove k laws b b' (v4 ip) i h = elim (Option-cases (k.map_remove b.v4_map ip)) [
  | inl fails ↦ absurd (ground arith)
  | inr (m, done) ↦
      let made : record b { v4_map = m } ≡ b' = ground arith in rw (← made) (in_v4 i m done)
]
  where
    in_v4 :
        (i : Src) (m : List (ℕ × ℕ))
        → k.map_remove b.v4_map ip ≡ some m
        → lookup (record b { v4_map = m }) i ≡ (if src_eq (v4 ip) i then none else lookup b i)
    in_v4 (v4 j) m done = laws.get-map_remove b.v4_map m ip j done
    in_v4 (v6 j) m done = refl
lookup-remove k laws b b' (v6 p) i h = elim (Option-cases b.v6_map) [
  | inl missing ↦ absurd (ground arith)
  | inr (old, there) ↦ elim (Option-cases (k.map_remove old p)) [
    | inl fails ↦ absurd (ground arith)
    | inr (m, done) ↦
        let made : record b { v6_map = some m } ≡ b' = ground arith in
        rw (← made) (in_v6 i old m there done)
  ]
]
  where
    in_v6 :
        (i : Src) (old m : List (ℕ × ℕ))
        → b.v6_map ≡ some old
        → k.map_remove old p ≡ some m
        → lookup (record b { v6_map = some m }) i ≡ (if src_eq (v6 p) i then none else lookup b i)
    in_v6 (v4 j) old m there done = refl
    in_v6 (v6 j) old m there done = rw there (laws.get-map_remove old m p j done)

-- A source that is listed can be removed.
pub remove_listed :
    (k : BanMap) (present : RemovesPresent k) (b : Blocklist) (src : Src)
    → is_some (lookup b src) ≡ true
    → (b' : Blocklist) × (Blocklist.remove k b src ≡ some b')
unfolding Blocklist.remove lookup
remove_listed k present b (v4 ip) h =
    let goes = present.removes b.v4_map ip h in
    elim (Option-cases (k.map_remove b.v4_map ip)) [
      | inl fails ↦ absurd (ground arith)
      | inr (m, done) ↦ (record b { v4_map = m }, rw done refl)
    ]
remove_listed k present b (v6 p) h = elim (Option-cases b.v6_map) [
  | inl missing ↦ absurd (ground arith)
  | inr (old, there) ↦
      let known : is_some (get p old) ≡ true = rw there at h in
      let goes = present.removes old p known in
      elim (Option-cases (k.map_remove old p)) [
        | inl fails ↦ absurd (ground arith)
        | inr (m, done) ↦ (record b { v6_map = some m }, rw (there, done) refl)
      ]
]
