-- ===== src/Assistant/Think.antt =====
-- ai-firewall/src/assistant.rs, `ThinkFilter`: a leading block of a model's thoughts is dropped from
-- an answer that arrives in pieces.
pub mod Prefixes
pub mod Whole
use ai_firewall.Prelude.{
  ℕ, Bool, true, false, not, ◌&&◌, ◌||◌, Option, none, some, List, [], ◌∷◌, ◌++◌, length, ltb, ◌==◌,
  if◌then◌else◌,
}
use ai_firewall.Prelude.Option
use ai_firewall.Text.{Text, codes, trim, trim_start}
use ai_firewall.Text.Words.{strip_prefix, starts_with, not_empty, split_once_at}

pub data ThinkState : Type 0 where
  start : ThinkState
  thinking : ThinkState
  answer : ThinkState

pub record ThinkFilter : Type 0 where
  pub held : Text
  pub state : ThinkState

abbrev pub new : ThinkFilter
new = record { held = []; state = start }

abbrev pub open_tag : Text
open_tag = codes "<think>"

abbrev pub close_tag : Text
close_tag = codes "</think>"

-- Whether it is not clear yet how the text starts.
unfoldable pub unclear : Text → Bool
unclear t = not (not_empty t) || ltb (length t) 7 && starts_with t open_tag

unfoldable pub push_thinking : Text → ThinkFilter × Text
push_thinking held = elim (split_once_at close_tag held) [
  | some (thoughts, after) ↦ (record { held = []; state = answer }, trim_start after)
  | none ↦ (record { held = held; state = thinking }, [])
]

unfoldable pub push_start : Text → ThinkFilter × Text
push_start held =
    let t = trim_start held in
    if unclear t
    then (record { held = held; state = start }, [])
    else if not (starts_with open_tag t)
    then (record { held = []; state = answer }, t)
    else push_thinking held

push_in : ThinkState → Text → Text → ThinkFilter × Text
push_in start held piece = push_start (held ++ piece)
push_in thinking held piece = push_thinking (held ++ piece)
push_in answer held piece = (record { held = held; state = answer }, piece)

-- The part of `piece` to show now.
unfoldable pub push : ThinkFilter → Text → ThinkFilter × Text
unfolding push_in
push f piece = push_in f.state f.held piece

finish_in : ThinkState → Text → Text
finish_in start held = trim held
finish_in thinking held = trim held
finish_in answer held = []

unfoldable pub finish : ThinkFilter → Text
unfolding finish_in
finish f = finish_in f.state f.held

-- What is shown of an answer that arrives in these pieces.
unfoldable pub stream : ThinkFilter → List Text → Text
stream f [] = finish f
stream f (piece ∷ pieces) = (push f piece).1 ++ stream (push f piece).0 pieces
