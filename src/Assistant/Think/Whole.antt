-- ===== src/Assistant/Think/Whole.antt =====
-- What a filter shows of an answer in pieces, against the whole answer.
use ai_firewall.Prelude.{
  ◌≡◌, refl, sym, ap, ◌∙◌, true, false, not, none, some, List, [], ◌∷◌, ◌++◌, arith, Option-cases,
  Bool-cases, inl, inr, if◌then◌else◌,
}
use mathlib.Core.List.{append_assoc, append-nil}
use ai_firewall.Text.{Text, trim, trim_start}
use ai_firewall.Text.Words.{split_once_at, strip_prefix, starts_with, not_empty}
use ai_firewall.Assistant.Think.{
  ThinkState, start, thinking, answer, ThinkFilter, new, open_tag, close_tag, unclear, push,
  push_start, push_thinking, finish, stream,
}
use ai_firewall.Assistant.Think.Prefixes.{
  apart-append, proper-length, starts_with-length, strip_prefix-more, split_once_at-more,
  trim_start-append, trim_start-more,
}

-- What of a whole answer is meant to be shown: what follows a leading block, or all of it.
unfoldable pub shown : Text → Text
shown text =
    let t = trim_start text in
    if unclear t
    then trim text
    else if not (starts_with open_tag t)
    then t
    else elim (split_once_at close_tag text) [
      | none ↦ trim text
      | some (thoughts, after) ↦ trim_start after
    ]

-- The answer starts neither with the tag nor with a part of it, and goes on so.
plain-append :
    (t r : Text)
    → unclear t ≡ false
    → starts_with open_tag t ≡ false
    → (unclear (t ++ r) ≡ false) × (starts_with open_tag (t ++ r) ≡ false)
unfolding unclear
plain-append [] r h k = cc
plain-append (c ∷ t) r h k = ground (
  arith,
  apart-append open_tag (c ∷ t) r,
  proper-length open_tag (c ∷ t),
  Bool-cases (starts_with (c ∷ t) open_tag),
)

tagged-clear : (t : Text) → starts_with open_tag t ≡ true → unclear t ≡ false
unfolding unclear strip_prefix
tagged-clear [] h = cc
tagged-clear (c ∷ t) h = ground (arith, starts_with-length open_tag (c ∷ t))

starts_with-more : (p t r : Text) → starts_with p t ≡ true → starts_with p (t ++ r) ≡ true
starts_with-more p t r h = elim (Option-cases (strip_prefix p t)) [
  | inl e ↦ cc
  | inr (rest, e) ↦ rw (strip_prefix-more p t r rest e) refl
]

-- The start of a longer text, where the shorter one does not start with white space only.
start-append :
    (text r : Text)
    → not_empty (trim_start text) ≡ true
    → trim_start (text ++ r) ≡ trim_start text ++ r
start-append text r h = elim_start (trim_start text) refl h
  where
    elim_start :
        (t : Text) → trim_start text ≡ t → not_empty t ≡ true → trim_start (text ++ r) ≡ t ++ r
    elim_start [] e h = cc
    elim_start (c ∷ t) e h = trim_start-more text r t c e

clear-not_empty : (t : Text) → unclear t ≡ false → not_empty t ≡ true
unfolding unclear
clear-not_empty t h = ground arith

-- What is known while an answer arrives: `text` has come in and `out` was shown.
abbrev Tracks : ThinkState → Text → Text → Text → Type 0
Tracks start held out text = (out ≡ []) × (held ≡ text) × (unclear (trim_start text) ≡ true)
Tracks thinking held out text =
    (out ≡ [])
    × (held ≡ text)
    × (starts_with open_tag (trim_start text) ≡ true)
    × (split_once_at close_tag text ≡ none)
Tracks answer held out text = (r : Text) → trim_start (out ++ r) ≡ trim_start (shown (text ++ r))

shown_plain :
    (text r : Text)
    → unclear (trim_start text) ≡ false
    → starts_with open_tag (trim_start text) ≡ false
    → shown (text ++ r) ≡ trim_start text ++ r
unfolding shown
shown_plain text r u s =
    let start_of = start-append text r (clear-not_empty (trim_start text) u) in
    let (u', s') = plain-append (trim_start text) r u s in rw (start_of, u', s') refl

shown_tagged :
    (text r a b : Text)
    → starts_with open_tag (trim_start text) ≡ true
    → split_once_at close_tag text ≡ some (a, b)
    → shown (text ++ r) ≡ trim_start (b ++ r)
unfolding shown
shown_tagged text r a b s found =
    let filled = clear-not_empty (trim_start text) (tagged-clear (trim_start text) s) in
    let s' = starts_with-more open_tag (trim_start text) r s in
    let u' = tagged-clear (trim_start text ++ r) s' in
    let found' = split_once_at-more _ _ text r a b found in
    rw (start-append text r filled, u', s', found') refl

trim_start_idem : (s : Text) → trim_start (trim_start s) ≡ trim_start s
unfolding trim_start
trim_start_idem [] = refl
trim_start_idem (c ∷ s) = ground (arith, trim_start_idem s)

-- A state that the next call keeps, with what it shows.
abbrev TracksNext : ThinkFilter × Text → Text → Text → Type 0
TracksNext next out text = Tracks (next.0).state (next.0).held (out ++ next.1) text

thinking-Tracks :
    (text : Text)
    → starts_with open_tag (trim_start text) ≡ true
    → TracksNext (push_thinking text) [] text
unfolding push_thinking
thinking-Tracks text s = elim (Option-cases (split_once_at close_tag text)) [
  | inl e ↦ rw (e, push_thinking) (refl, refl, s, e)
  | inr ((a, b), e) ↦
      rw (e, push_thinking)
        (λ r.
          trim_start-append b r
          ∙ (sym (trim_start_idem (b ++ r)) ∙ ap trim_start (sym (shown_tagged text r a b s e))))
]

start-Tracks : (text : Text) → TracksNext (push_start text) [] text
unfolding push_start
start-Tracks text = elim (Bool-cases (unclear (trim_start text))) [
  | inl u ↦ rw (u, push_start) (refl, refl, u)
  | inr u ↦ elim (Bool-cases (starts_with open_tag (trim_start text))) [
    | inl s ↦ rw (u, s, push_start) (thinking-Tracks text s)
    | inr s ↦ rw (u, s, push_start) (λ r. ap trim_start (sym (shown_plain text r u s)))
  ]
]

-- `t` computes once the state is known.
push-Tracks :
    (s : ThinkState) (held out text piece : Text)
    → Tracks s held out text
    → TracksNext (push (record { held = held; state = s }) piece) out (text ++ piece)
unfolding push
push-Tracks start held out text piece h = rw (h.0, h.1) (start-Tracks (text ++ piece))
push-Tracks thinking held out text piece h =
    let t = trim_start text in
    let filled = clear-not_empty t (tagged-clear t h.2) in
    let tagged : starts_with open_tag (trim_start (text ++ piece)) ≡ true =
      rw (start-append text piece filled) (starts_with-more open_tag t piece h.2) in
    rw (h.0, h.1) (thinking-Tracks (text ++ piece) tagged)
push-Tracks answer held out text piece h =
    λ r. rw (append_assoc out piece r, append_assoc text piece r) (h (piece ++ r))

abbrev pub whole : List Text → Text
whole [] = []
whole (piece ∷ pieces) = piece ++ whole pieces

finish_shows :
    (s : ThinkState) (held out text : Text)
    → Tracks s held out text
    → trim_start (out ++ finish (record { held = held; state = s })) ≡ trim_start (shown text)
unfolding finish shown
finish_shows start held out text h = rw (h.0, h.1, h.2) refl
finish_shows thinking held out text h =
    rw (h.0, h.1, tagged-clear (trim_start text) h.2, h.2, h.3) refl
finish_shows answer held out text h = h [] ∙ ap (λ t. trim_start (shown t)) (append-nil text)

stream_shows :
    (pieces : List Text) (s : ThinkState) (held out text : Text)
    → Tracks s held out text
    → trim_start (out ++ stream (record { held = held; state = s }) pieces)
      ≡ trim_start (shown (text ++ whole pieces))
unfolding stream
stream_shows [] s held out text h = rw (append-nil text) (finish_shows s held out text h)
stream_shows (piece ∷ pieces) s held out text h =
    let next = push (record { held = held; state = s }) piece in
    rw (← append_assoc out next.1 (stream next.0 pieces), ← append_assoc text piece (whole pieces))
      (stream_shows pieces (next.0).state (next.0).held (out ++ next.1) (text ++ piece)
        (push-Tracks s held out text piece h))

-- However an answer is cut into pieces, what the filter shows of it, together with what is left at
-- the end, is what is meant to be shown of the whole answer, up to white space in front.
pub stream-shown :
    (pieces : List Text) → trim_start (stream new pieces) ≡ trim_start (shown (whole pieces))
unfolding unclear trim_start
stream-shown pieces = stream_shows pieces start [] [] [] (refl, refl, refl)
