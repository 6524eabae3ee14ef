-- ===== src/History/Throttle.antt =====
-- The throttling of notifications (`BanNotes` of ai-firewall/src/history.rs) over any sequence of
-- bans and flushes.
use ai_firewall.Prelude.{
  ℕ, ◌+◌, ◌≤◌, min, ◌≡◌, ◌⊎◌, inl, inr, refl, Bool-cases, true, false, ◌||◌, Option, none, some,
  List, [], ◌∷◌, ◌++◌, length, length-append, ◌==◌, is_some, arith,
}
use ai_firewall.Text.{Text}
use ai_firewall.History.{
  BanNotes, push, take, too_soon, single_note, note_shown, note_interval_secs,
}

pub data Step : Type 0 where
  banned : Text → Text → Step
  flushed : ℕ → Step

-- One step, and the time of the notification that it sends, if it sends one.
unfoldable pub step : BanNotes → Step → BanNotes × List ℕ
step n (banned ip reason) = (push n ip reason, [])
step n (flushed now) =
    let (n', note) = take n now in (n', elim note [ none ↦ [] | some _ ↦ now ∷ [] ])

-- The steps one after the other, and the times of all notifications, the earliest first.
unfoldable pub run : BanNotes → List Step → BanNotes × List ℕ
run n [] = (n, [])
run n (s ∷ ss) = let (n', sent) = step n s in let (n'', more) = run n' ss in (n'', sent ++ more)

-- `shown` has the first bans, up to three.
abbrev pub WellFormed : BanNotes → Type 0
WellFormed n = length n.shown ≡ min n.count note_shown

empty : BanNotes
empty = record { shown = []; count = 0; last_sent = none }

step-WellFormed : (n : BanNotes) (s : Step) → WellFormed n → WellFormed (step n s).0
unfolding step push take
step-WellFormed n (banned ip reason) h = ground (arith, length-append n.shown ((ip, reason) ∷ []))
step-WellFormed n (flushed now) h = ground arith

-- After any sequence of bans and flushes, the bans that are named are the first ones since the last
-- notification, as many as there were, up to three.
pub run-WellFormed : (n : BanNotes) (ss : List Step) → WellFormed n → WellFormed (run n ss).0
unfolding run
run-WellFormed n [] h = h
run-WellFormed n (s ∷ ss) h = run-WellFormed (step n s).0 ss (step-WellFormed n s h)

-- At least a minute after the last time, if there is one.
abbrev pub Later : Option ℕ → ℕ → Type 0
Later none t = Unit {0}
Later (some s) t = s + note_interval_secs ≤ t

-- Each time is at least a minute after the one before it.
abbrev pub Apart : Option ℕ → List ℕ → Type 0
Apart last [] = Unit {0}
Apart last (t ∷ ts) = Later last t × Apart (some t) ts

later : (last : Option ℕ) (t : ℕ) → too_soon last t ≡ false → Later last t
later none t h = tt
later (some s) t h = ground arith

single_some : (shown : List (Text × Text)) → length shown ≡ 1 → is_some (single_note shown) ≡ true
unfolding single_note
single_some [] h = cc
single_some (x ∷ xs) h = refl

-- A step sends nothing, and then the last time stays, or it sends one note, not too soon.
step_cases :
    (n : BanNotes) (s : Step)
    → WellFormed n
    → (((step n s).1 ≡ []) × ((step n s).0.last_sent ≡ n.last_sent))
      ⊎ ((now : ℕ) × ((step n s).1 ≡ now ∷ [])
          × ((step n s).0.last_sent ≡ some now)
          × (too_soon n.last_sent now ≡ false))
unfolding step take push
step_cases n (banned ip reason) h = inl (refl, refl)
step_cases n (flushed now) h = elim (Bool-cases (n.count == 0 || too_soon n.last_sent now)) [
  | inl held ↦ inl (ground arith, ground arith)
  | inr due ↦ inr (now, ground (arith, single_some n.shown), ground arith, ground arith)
]

-- However bans and flushes interleave, two notifications are at least a minute apart, and the first
-- comes at least a minute after the last one sent before.
pub run-Apart : (n : BanNotes) (ss : List Step) → WellFormed n → Apart n.last_sent (run n ss).1
unfolding run
run-Apart n [] h = tt
run-Apart n (s ∷ ss) h =
    let rest = run-Apart (step n s).0 ss (step-WellFormed n s h) in
    elim (step_cases n s h) [
      | inl (silent, same) ↦ rw silent (rw same at rest)
      | inr (now, sent, last, fair) ↦ rw sent (later n.last_sent now fair, rw last at rest)
    ]
