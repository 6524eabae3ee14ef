-- ===== src/History.antt =====
-- ai-firewall/src/history.rs, `BanNotes`: at most one notification of bans a minute. The history
-- file and the desktop notification itself are not modelled.
pub mod Throttle
use ai_firewall.Prelude.{
  ℕ, ◌+◌, ◌-◌, Bool, true, false, ◌||◌, Option, none, some, List, [], ◌∷◌, ◌++◌, map, length, ltb,
  ◌==◌, if◌then◌else◌,
}
use ai_firewall.Text.{Text, codes, print_uint}

abbrev pub note_interval_secs : ℕ
note_interval_secs = 60

abbrev pub note_shown : ℕ
note_shown = 3

-- `shown` holds the first few bans since the last notification, `count` counts them all.
pub record BanNotes : Type 0 where
  pub shown : List (Text × Text)
  pub count : ℕ
  pub last_sent : Option ℕ

unfoldable pub push : BanNotes → Text → Text → BanNotes
push n ip reason = record n {
  shown = if ltb (length n.shown) note_shown then n.shown ++ (ip, reason) ∷ [] else n.shown;
  count = n.count + 1;
}

-- `last_sent.is_some_and(|t| now - t < NOTE_INTERVAL_SECS)`
abbrev pub too_soon : Option ℕ → ℕ → Bool
too_soon none now = false
too_soon (some t) now = ltb (now - t) note_interval_secs

-- `join("\n")`
join_lines : List Text → Text
join_lines [] = []
join_lines (l ∷ []) = l
join_lines (l ∷ m ∷ ls) = l ++ b'\n' ∷ join_lines (m ∷ ls)

-- The title and the body; the one ban of a single note is the first that is shown (the source
-- panics if there is none).
single_note : List (Text × Text) → Option (Text × Text)
single_note [] = none
single_note ((ip, reason) ∷ more) = some (codes "Banned " ++ ip, reason)

group_note : List (Text × Text) → ℕ → Text × Text
unfolding join_lines
group_note shown count =
    let more = count - length shown in
    (
      codes "Banned " ++ print_uint count (codes " sources"),
      join_lines (map (λ s. s.0 ++ (codes ": " ++ s.1)) shown)
          ++ (if ltb 0 more then codes "\n+" ++ print_uint more (codes " more") else []),
    )

-- The notification that is due at `now`, if any.
unfoldable pub take : BanNotes → ℕ → BanNotes × Option (Text × Text)
unfolding single_note group_note
take n now = if n.count == 0 || too_soon n.last_sent now then (n, none) else (
  record { shown = []; count = 0; last_sent = some now },
  if n.count == 1 then single_note n.shown else some (group_note n.shown n.count),
)
