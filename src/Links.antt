-- ===== src/Links.antt =====
-- ai-firewall/src/links.rs: the pinned attachments of the two programs. A restarted daemon takes the
-- pinned link over; a link of another interface index is dropped and made anew. The names in the
-- directory of the pins and the texts of the sidecar files are the state; what the kernel answers
-- is a record of answers. A sidecar that cannot be written keeps its old text.
pub mod Busy
pub mod Takeover
pub mod Unpinned
pub mod Apart
pub mod Tests
use ai_firewall.Prelude.{
  ℕ, zero, suc, ◌+◌, Bool, true, false, not, ◌&&◌, Option, none, some, List, [], ◌∷◌, ◌++◌, length,
  any, retain, ltb, ◌==◌, if◌then◌else◌, get, insert, remove,
}
use ai_firewall.Text.{Text, text_Eq, codes, text_eq, trim, split_once, parse_uint, print_uint}
use ai_firewall.Text.Words.{strip_prefix, ends_with}

-- What a call of `attach` returns: a link, an error whose text has "busy" in it, another error.
pub data Answer : Type 0 where
  attached : Answer
  busy : Answer
  refused : Answer

abbrev pub is_busy : Answer → Bool
is_busy busy = true
is_busy _ = false

abbrev pub is_attached : Option Answer → Bool
is_attached (some attached) = true
is_attached _ = false

-- What the kernel answers to the calls of one attach; the answers to `attach` by their number.
pub record Answers : Type 0 where
  pub swap : Bool
  pub attach : ℕ → Answer
  pub attach_skb : ℕ → Answer
  pub take_link : Bool
  pub link_fd : Bool
  pub pin : Bool
  pub write : Bool

-- The names in the directory of the pins, and the sidecar files.
pub record Files : Type 0 where
  pub pins : List Text
  pub metas : List (Text × Text)

pub data Outcome : Type 0 where
  failed : Outcome
  guarding : Text → Bool → Outcome

-- Both files of a link have this name, the sidecar with `.meta` behind it, in their directories.
unfoldable pub link_name : Text → Text → Text
link_name kind iface = codes "link-" ++ (kind ++ (b'-' ∷ iface))

unfoldable pub meta_text : ℕ → Text → Text
meta_text ifindex mode = print_uint ifindex (b' ' ∷ (mode ++ (b'\n' ∷ [])))

parse_index : Text → Option ℕ → Option (ℕ × Text)
parse_index mode none = none
parse_index mode (some idx) = some (idx, mode)

abbrev pub u32_max : ℕ
u32_max = 0xffffffff

unfoldable pub parse_meta : Text → Option (ℕ × Text)
unfolding parse_index
parse_meta text = elim (split_once b' ' (trim text)) [
  | none ↦ none
  | some (idx, mode) ↦ parse_index mode (parse_uint u32_max idx)
]

unfoldable pub read_meta : Text → Text → Files → Option (ℕ × Text)
read_meta kind iface w = elim (get (link_name kind iface) w.metas) [
  | none ↦ none
  | some text ↦ parse_meta text
]

unfoldable pub write_meta : Bool → Text → Text → ℕ → Text → Files → Files
write_meta written kind iface ifindex mode w =
    if written
    then record w { metas = insert (link_name kind iface) (meta_text ifindex mode) w.metas }
    else w

-- The loop of `retry_busy`; `none` means that the fuel ran out.
unfoldable pub retry : ℕ → (ℕ → Answer) → ℕ → Option Answer
retry zero f tries = none
retry (suc fuel) f tries =
    let more = retry fuel f (tries + 1) in
    if ltb tries 30 && is_busy (f tries) then more else some (f tries)

unfoldable pub retry_busy : (ℕ → Answer) → Option Answer
unfolding retry
retry_busy f = retry 31 f 0

unfoldable pub unpin : Text → Text → Files → Files
unpin kind iface w = record w {
  pins = retain (λ n. not (text_eq n (link_name kind iface))) w.pins;
  metas = remove (link_name kind iface) w.metas;
}

abbrev pub has_pin : Text → Text → Files → Bool
has_pin kind iface w = any (λ n. text_eq n (link_name kind iface)) w.pins

abbrev if_link : Option Text → List Text → List Text
if_link none out = out
if_link (some iface) out = if ends_with (codes ".meta") iface then out else iface ∷ out

unfoldable pub link_ifaces : List Text → List Text
link_ifaces [] = []
link_ifaces (n ∷ ns) = if_link (strip_prefix (codes "link-xdp-") n) (link_ifaces ns)

unfoldable pub pinned_ifaces : Files → List Text
pinned_ifaces w = link_ifaces w.pins

unfoldable pub unpin_each : List Text → Files → Files
unpin_each [] w = w
unpin_each (i ∷ is) w = unpin_each is (unpin (codes "tc") i (unpin (codes "xdp") i w))

unfoldable pub unpin_all : Files → Files × ℕ
unpin_all w = (unpin_each (pinned_ifaces w) w, length (pinned_ifaces w))

-- The pin, and then the sidecar, of a link that was just attached.
unfoldable pub pin_link : Answers → Text → Text → ℕ → Text → Files → Files × Outcome
pin_link k kind iface ifindex mode w =
    if k.take_link && (k.link_fd && k.pin)
    then (
      write_meta k.write kind iface ifindex mode
          (record w { pins = link_name kind iface ∷ w.pins }),
      guarding mode false,
    )
    else (w, failed)

-- The native mode first, then the generic one, which works with every driver.
unfoldable pub fresh_xdp : Answers → Text → ℕ → Files → Files × Outcome
fresh_xdp k iface ifindex w =
    if is_attached (retry_busy k.attach)
    then pin_link k (codes "xdp") iface ifindex (codes "native") w
    else if is_attached (retry_busy k.attach_skb)
    then pin_link k (codes "xdp") iface ifindex (codes "generic") w
    else (w, failed)

unfoldable pub fresh_tc : Answers → Text → ℕ → Files → Files × Outcome
fresh_tc k iface ifindex w =
    if is_attached (retry_busy k.attach)
    then pin_link k (codes "tc") iface ifindex (codes "tcx") w
    else (w, failed)

-- The running link is taken over where its sidecar names this interface index and the swap works.
-- Otherwise it is unpinned and `fresh` attaches anew.
unfoldable pub take_over :
    Answers → Text → Text → ℕ → (Files → Files × Outcome) → Files → Files × Outcome
take_over k kind iface ifindex fresh w = elim (read_meta kind iface w) [
  | none ↦ fresh (unpin kind iface w)
  | some (idx, mode) ↦
      if idx == ifindex && k.swap
      then (w, if k.take_link then guarding mode true else failed)
      else fresh (unpin kind iface w)
]

unfoldable pub attach_xdp : Answers → Text → ℕ → Files → Files × Outcome
attach_xdp k iface ifindex w =
    if has_pin (codes "xdp") iface w
    then take_over k (codes "xdp") iface ifindex (fresh_xdp k iface ifindex) w
    else fresh_xdp k iface ifindex w

unfoldable pub attach_tc : Answers → Text → ℕ → Files → Files × Outcome
attach_tc k iface ifindex w =
    if has_pin (codes "tc") iface w
    then take_over k (codes "tc") iface ifindex (fresh_tc k iface ifindex) w
    else fresh_tc k iface ifindex w
