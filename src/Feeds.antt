-- ===== src/Feeds.antt =====
-- ai-firewall/src/feeds.rs: the known feeds, the parser of blocklists and the sources of a
-- configuration. Downloads are not modelled.
pub mod Spared
pub mod Load
use ai_firewall.Prelude.{
  ℕ, suc, ◌+◌, Bool, true, false, not, ◌&&◌, ◌||◌, Option, none, some, List, [], ◌∷◌, ◌++◌, map,
  any, ltb, leb, ◌==◌, if◌then◌else◌,
}
use mathlib.Core.List.{reverse}
use ai_firewall.Text.{Text, codes, text_eq, split, is_digit, print_uint}
use ai_firewall.Text.Words.{lines}
use ai_firewall.Config.Cidr.{Cidr, leading_ones, overlaps}
use ai_firewall.Config.Cidr

pub record FeedState : Type 0 where
  pub name : Text
  pub entries : ℕ
  -- 0 for one that was never downloaded
  pub updated_unix : ℕ
  pub error : Option Text

pub record FeedConfig : Type 0 where
  pub lists : List Text
  pub urls : List Text
  pub refresh_hours : ℕ

abbrev pub known_feeds : List (Text × Text)
known_feeds =
    (codes "spamhaus-drop", codes "https://www.spamhaus.org/drop/drop_v4.json")
    ∷ (
      codes "firehol-level1",
      codes
          "https://raw.githubusercontent.com/firehol/blocklist-ipsets/master/firehol_level1.netset",
    )
    ∷ []

find_feed : Text → List (Text × Text) → Option Text
find_feed name [] = none
find_feed name (k ∷ ks) = if text_eq k.0 name then some k.1 else find_feed name ks

unfoldable pub known : Text → Option Text
unfolding find_feed
known name = find_feed name known_feeds

abbrev pub reserved_texts : List Text
reserved_texts =
    codes "0.0.0.0/8"
    ∷ codes "10.0.0.0/8"
    ∷ codes "100.64.0.0/10"
    ∷ codes "127.0.0.0/8"
    ∷ codes "169.254.0.0/16"
    ∷ codes "172.16.0.0/12"
    ∷ codes "192.0.0.0/24"
    ∷ codes "192.168.0.0/16"
    ∷ codes "198.18.0.0/15"
    ∷ codes "224.0.0.0/4"
    ∷ codes "240.0.0.0/4"
    ∷ []

-- The networks that parse.
unfoldable pub parse_each : List Text → List Cidr
parse_each [] = []
parse_each (t ∷ ts) =
    let rest = parse_each ts in elim (Cidr.parse t) [ none ↦ rest | some c ↦ c ∷ rest ]

abbrev first_piece : List Text → Text
first_piece [] = []
first_piece (p ∷ ps) = p

-- `matches('.').count()`
dots : Text → ℕ
dots [] = 0
dots (c ∷ s) = let rest = dots s in if c == b'.' then suc rest else rest

unfoldable pub tokens : Text → List Text
tokens line =
    split (λ c. not (is_digit c || c == b'.' || c == b'/'))
      (first_piece (split (λ c. c == b'#' || c == b';') line))

-- Whether the network is kept: at least a /8, and clear of every reserved or protected network.
unfoldable pub wanted : List Cidr → Cidr → Bool
wanted spared c = not (ltb (leading_ones c.mask) 8 || any (λ r. overlaps r c) spared)

keep_parsed : List Cidr → Option Cidr → List Cidr → List Cidr
keep_parsed spared none out = out
keep_parsed spared (some c) out = if wanted spared c then c ∷ out else out

unfoldable pub keep_tokens : List Cidr → List Text → List Cidr
unfolding keep_parsed dots
keep_tokens spared [] = []
keep_tokens spared (t ∷ ts) =
    let rest = keep_tokens spared ts in
    if dots t == 3 then keep_parsed spared (Cidr.parse t) rest else rest

keep_lines : List Cidr → List Text → List Cidr
keep_lines spared [] = []
keep_lines spared (l ∷ ls) = keep_tokens spared (tokens l) ++ keep_lines spared ls

-- `sort_by_key(|c| (c.net, c.mask))` and `dedup`.
abbrev pub key_le : Cidr → Cidr → Bool
key_le a b = ltb a.net b.net || a.net == b.net && leb a.mask b.mask

insert_key : Cidr → List Cidr → List Cidr
insert_key a [] = a ∷ []
insert_key a (x ∷ xs) = if key_le a x then a ∷ x ∷ xs else x ∷ insert_key a xs

unfoldable pub sort_keys : List Cidr → List Cidr
unfolding insert_key
sort_keys [] = []
sort_keys (x ∷ xs) = insert_key x (sort_keys xs)

unfoldable pub dedup_keys : List Cidr → List Cidr
dedup_keys [] = []
dedup_keys (x ∷ []) = x ∷ []
dedup_keys (x ∷ y ∷ xs) =
    let rest = dedup_keys (y ∷ xs) in if x.net == y.net && x.mask == y.mask then rest else x ∷ rest

unfoldable pub parse : Text → List Cidr → List Cidr
unfolding keep_lines
parse text protected =
    dedup_keys (sort_keys (keep_lines (parse_each reserved_texts ++ protected) (lines text)))

named : List Text → List (Text × Text)
named [] = []
named (n ∷ ns) = let rest = named ns in elim (known n) [ none ↦ rest | some u ↦ (n, u) ∷ rest ]

custom : ℕ → List Text → List (Text × Text)
custom i [] = []
custom i (u ∷ us) = (codes "custom-" ++ print_uint (i + 1) [], u) ∷ custom (suc i) us

-- The name and the address of each source.
unfoldable pub sources : FeedConfig → List (Text × Text)
unfolding named custom
sources cfg = named cfg.lists ++ custom 0 cfg.urls
