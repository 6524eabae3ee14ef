-- ===== src/Addr.antt =====
-- ai-firewall/src/addr.rs: a traffic source, an IPv4 address or an IPv6 /64. The text of an IPv6
-- address (`Ipv6Addr` of the standard library) is a parameter of the functions that read or write it.
use ai_firewall.Prelude.{
  ℕ, ◌*◌, ◌/◌, ◌^◌, ◌≡◌, ◌↔◌, Bool, true, false, Option, none, some, List, [], ◌∷◌, ◌++◌, Eq, ◌==◌,
  if◌then◌else◌, arith,
}
use mathlib.Core.List.{reverse}
use ai_firewall.Text.{codes, trim, text_eq, parse_ipv4, print_ipv4}
use ai_firewall.Wire.{PacketEvent, family_v6}

pub data Src : Type 0 where
  v4 : ℕ → Src
  v6 : ℕ → Src

abbrev pub src_eq : Src → Src → Bool
src_eq (v4 a) (v4 b) = a == b
src_eq (v4 a) (v6 q) = false
src_eq (v6 p) (v4 b) = false
src_eq (v6 p) (v6 q) = p == q

pub src_eq_iff : (a b : Src) → (src_eq a b ≡ true) ↔ (a ≡ b)
src_eq_iff (v4 a) (v4 b) = ground arith
src_eq_iff (v4 a) (v6 q) = ground arith
src_eq_iff (v6 p) (v4 b) = ground arith
src_eq_iff (v6 p) (v6 q) = ground arith

instance abbrev pub src_Eq : Eq Src
src_Eq = record { beq = src_eq; beq_iff = src_eq_iff }

unfoldable pub of : PacketEvent → Src
of ev = if ev.family == family_v6 then v6 ev.src6 else v4 ev.src_ip

-- An IPv6 address as a number of 128 bits.
unfoldable pub v6_prefix : ℕ → ℕ
v6_prefix ip = ip / 2 ^ 64

abbrev suffix : List ℕ
suffix = codes "/64"

-- `strip_suffix("/64")`, or the text itself.
unfoldable pub strip_64 : List ℕ → List ℕ
strip_64 s = elim (reverse s) [
  | c ∷ d ∷ e ∷ front ↦ if text_eq (e ∷ d ∷ c ∷ []) suffix then reverse front else s
  | _ ↦ s
]

module _ (parse_ipv6 : List ℕ → Option ℕ) (print_ipv6 : ℕ → List ℕ) where
  unfoldable pub display : Src → List ℕ
  display (v4 ip) = print_ipv4 ip
  display (v6 p) = print_ipv6 (p * 2 ^ 64) ++ suffix

  of_address : List ℕ → List ℕ → Option ℕ → Option ℕ → Option Src
  of_address s addr (some ip) six = if text_eq addr s then some (v4 ip) else none
  of_address s addr none (some ip) = some (v6 (v6_prefix ip))
  of_address s addr none none = none

  unfoldable pub from_str : List ℕ → Option Src
  unfolding of_address
  from_str text =
      let s = trim text in
      let addr = strip_64 s in of_address s addr (parse_ipv4 addr) (parse_ipv6 addr)
