-- ===== src/Daemon/Rules/Opened.antt =====
-- From the configuration to the kernel: which ports `compile` and `sync_ports` of
-- ai-firewall/src/daemon.rs open to everyone.
use ai_firewall.Prelude.{
  ℕ, ◌≡◌, refl, ◌∙◌, ◌↔◌, ◌⊎◌, inl, inr, subst, Bool, Option-cases, true, false, not, ◌&&◌, ◌||◌,
  Option, none, some, List, [], ◌∷◌, ◌++◌, KernelMap, nat_eq, contains, or_iff, ◌==◌, arith,
}
use ai_firewall.Text.{Text, codes, text_eq}
use ai_firewall.Kernel.Maps.{port_open}
use ai_firewall.Config.Cidr.{Cidr}
use ai_firewall.Config.Cidr
use ai_firewall.Config.Ports.{PortSpec, Rule, ports, range_of, expand, rate}
use ai_firewall.Config.Ports.Expand.{
  Covers, InRange, expand-Covers, contains-append, contains-range_of, ports_ordered,
}
use ai_firewall.Daemon.Rules.Sync.{Agrees, sync_ports-Agrees}
use ai_firewall.Config.Settings.{Policy}
use ai_firewall.Daemon.Rules.{
  Compiled, compile, compile_lists, add_rules, add_rule, add_parsed, add_ports, add_rate, open_port,
  parse_from, sync_ports, dhcp_client_ports,
}

-- The set of ports open to everyone, for TCP or for UDP.
abbrev pub open_set : Bool → Compiled → List ℕ
open_set true c = c.tcp
open_set false c = c.udp

-- Whether a rule for TCP or not, from everywhere or not, opens ports of this set.
abbrev for_all : Bool → Bool → Option Cidr → Bool
for_all t b (some net) = false
for_all true b none = b
for_all false b none = not b

step-open_set :
    (t b : Bool) (from : Option Cidr) (limit : Option (ℕ × ℕ)) (p q : ℕ) (c : Compiled)
    → contains p (open_set t (add_rate q limit (open_port b from q c)))
      ≡ (for_all t b from && q == p || contains p (open_set t c))
unfolding add_rate open_port
step-open_set true true none none p q c = refl
step-open_set true true none (some l) p q c = refl
step-open_set true false none none p q c = refl
step-open_set true false none (some l) p q c = refl
step-open_set true true (some n) none p q c = refl
step-open_set true true (some n) (some l) p q c = refl
step-open_set true false (some n) none p q c = refl
step-open_set true false (some n) (some l) p q c = refl
step-open_set false true none none p q c = refl
step-open_set false true none (some l) p q c = refl
step-open_set false false none none p q c = refl
step-open_set false false none (some l) p q c = refl
step-open_set false true (some n) none p q c = refl
step-open_set false true (some n) (some l) p q c = refl
step-open_set false false (some n) none p q c = refl
step-open_set false false (some n) (some l) p q c = refl

add_ports-open_set :
    (t b : Bool) (from : Option Cidr) (limit : Option (ℕ × ℕ)) (p : ℕ) (ps : List ℕ) (c : Compiled)
    → contains p (open_set t (add_ports b from limit ps c))
      ≡ (for_all t b from && contains p ps || contains p (open_set t c))
unfolding add_ports
add_ports-open_set t b from limit p [] c = ground arith
add_ports-open_set t b from limit p (q ∷ ps) c =
    let c' = add_rate q limit (open_port b from q c) in
    add_ports-open_set t b from limit p ps c'
    ∙ rw (step-open_set t b from limit p q c)
        (shuffle (for_all t b from) (contains p ps) (q == p) (contains p (open_set t c)))
  where
    shuffle : (f x y z : Bool) → (f && x || (f && y || z)) ≡ (f && (y || x) || z)
    shuffle f x y z = ground arith

-- The rule is for TCP (or not), from everywhere, and covers the port.
abbrev pub OpensHere : Bool → ℕ → Rule → Type 0
OpensHere t p r = (text_eq r.proto (codes "tcp") ≡ t) × (r.from ≡ none) × InRange p (ports r.port)

abbrev pub Opens : Bool → ℕ → List Rule → Type 0
Opens t p [] = ⊥
Opens t p (r ∷ rs) = OpensHere t p r ⊎ Opens t p rs

everyone :
    (t b : Bool) (f : Option Text) (from : Option Cidr)
    → parse_from f ≡ some from
    → (for_all t b from ≡ true) ↔ ((b ≡ t) × (f ≡ none))
unfolding parse_from
everyone true b none none g = ground arith
everyone false b none none g = ground arith
everyone t b none (some net) g = cc
everyone t b (some x) none g = elim (Option-cases (Cidr.parse x)) [
  | inl bad ↦ absurd (ground (arith, g))
  | inr (c, good) ↦ absurd (ground (arith, g))
]
everyone t b (some x) (some net) g = ground arith

parsed :
    (t b : Bool) (p : ℕ) (f : Option Text) (from : Option (Option Cidr))
    (limit : Option (Option (ℕ × ℕ))) (spec : PortSpec) (r : Option (ℕ × ℕ)) (c c' : Compiled)
    → ports spec ≡ r
    → parse_from f ≡ from
    → add_parsed b from limit r c ≡ some c'
    → (contains p (open_set t c') ≡ true)
      ↔ (((b ≡ t) × (f ≡ none) × InRange p r) ⊎ (contains p (open_set t c) ≡ true))
unfolding add_parsed parse_from
parsed t b p f none limit spec r c c' e g h = cc
parsed t b p f (some from) none spec r c c' e g h = cc
parsed t b p f (some from) (some limit) spec none c c' e g h = cc
parsed t b p f (some from) (some limit) spec (some (x, y)) c c' e g h =
    let made : add_ports b from limit (range_of (x, y)) c ≡ c' = ground arith in
    let all = add_ports-open_set t b from limit p (range_of (x, y)) c in
    let range = contains-range_of p x y (ports_ordered spec x y e).1 in
    subst
      (λ z.
        (contains p (open_set t z) ≡ true)
        ↔ (((b ≡ t) × (f ≡ none) × InRange p (some (x, y))) ⊎ (contains p (open_set t c) ≡ true)))
      made
      (rw all (
        or_iff (for_all t b from && contains p (range_of (x, y))) (contains p (open_set t c))
          (both (everyone t b f from g) range) (λ h. h, λ h. h)))
  where
    both :
        {P Q R : Type 0} {u v : Bool}
        → ((u ≡ true) ↔ (P × Q))
        → ((v ≡ true) ↔ R)
        → ((u && v) ≡ true) ↔ (P × Q × R)
    both {u = u} {v = v} i j = ground arith

add_rule-open_set :
    (t : Bool) (p : ℕ) (r : Rule) (c c' : Compiled)
    → add_rule r c ≡ some c'
    → (contains p (open_set t c') ≡ true) ↔ (OpensHere t p r ⊎ (contains p (open_set t c) ≡ true))
unfolding add_rule
add_rule-open_set t p r c c' h =
    parsed t (text_eq r.proto (codes "tcp")) p r.from (parse_from r.from) (rate r) r.port
      (ports r.port) c c' refl refl h

add_rules-open_set :
    (t : Bool) (p : ℕ) (rs : List Rule) (c c' : Compiled)
    → add_rules rs c ≡ some c'
    → (contains p (open_set t c') ≡ true) ↔ (Opens t p rs ⊎ (contains p (open_set t c) ≡ true))
unfolding add_rules
add_rules-open_set t p [] c c' h =
    let same : c ≡ c' = ground arith in
    subst (λ z. (contains p (open_set t z) ≡ true) ↔ (⊥ ⊎ (contains p (open_set t c) ≡ true))) same
      (λ x. inr x, λ x. elim x [ inl e ↦ absurd e | inr y ↦ y ])
add_rules-open_set t p (r ∷ rs) c c' h = elim (Option-cases (add_rule r c)) [
  | inl bad ↦ absurd (ground arith)
  | inr (d, good) ↦
      let ih = add_rules-open_set t p rs d c' (rw (good, add_rules) at h) in
      let here = add_rule-open_set t p r c d good in regroup ih here
]
  where
    regroup : {A B P Q R : Type 0} → (A ↔ (Q ⊎ B)) → (B ↔ (P ⊎ R)) → (A ↔ ((P ⊎ Q) ⊎ R))
    regroup i j = ground arith

-- What the base lists open, and what is always open.
abbrev pub Listed : Bool → ℕ → Policy → Type 0
Listed true p policy = Covers p policy.allow_tcp
Listed false p policy = Covers p policy.allow_udp ⊎ (contains p dhcp_client_ports ≡ true)

compile-open_set :
    (t : Bool) (p : ℕ) (policy : Policy) (c : Compiled)
    → compile policy ≡ some c
    → (contains p (open_set t c) ≡ true) ↔ (Opens t p policy.rules ⊎ Listed t p policy)
unfolding compile compile_lists
compile-open_set t p policy c h = elim (Option-cases (expand policy.allow_tcp)) [
  | inl bad ↦ absurd (ground arith)
  | inr (tcp, fine) ↦ elim (Option-cases (expand policy.allow_udp)) [
    | inl bad ↦ absurd (ground arith)
    | inr (udp, good) ↦
        let start : Compiled = record {
          tcp = tcp;
          udp = udp ++ dhcp_client_ports;
          from_tcp = [];
          from_udp = [];
          rates = [];
        } in
        let rules = add_rules-open_set t p policy.rules start c (rw (fine, good, compile) at h) in
        let a = (expand-Covers policy.allow_tcp tcp fine).1 p in
        let b = (expand-Covers policy.allow_udp udp good).1 p in lists t p policy tcp udp a b rules
  ]
]
  where
    lists :
        (t : Bool) (p : ℕ) (policy : Policy) (tcp udp : List ℕ)
        → ((contains p tcp ≡ true) ↔ Covers p policy.allow_tcp)
        → ((contains p udp ≡ true) ↔ Covers p policy.allow_udp)
        → ((contains p (open_set t c) ≡ true) ↔ (
            Opens t p policy.rules
            ⊎ (contains p (
                  open_set t (record {
                    tcp = tcp;
                    udp = udp ++ dhcp_client_ports;
                    from_tcp = [];
                    from_udp = [];
                    rates = [];
                  }))
                ≡ true)))
        → (contains p (open_set t c) ≡ true) ↔ (Opens t p policy.rules ⊎ Listed t p policy)
    lists true p policy tcp udp a b rules = ground (arith, rules, a)
    lists false p policy tcp udp a b rules =
        let both : (contains p (udp ++ dhcp_client_ports) ≡ true)
            ↔ (Covers p policy.allow_udp ⊎ (contains p dhcp_client_ports ≡ true)) =
          rw (contains-append p udp dhcp_client_ports)
            (or_iff (contains p udp) (contains p dhcp_client_ports) b (λ h. h, λ h. h)) in
        ground (arith, rules, both)

-- From the configuration to the kernel: let `compile` accept a policy, and let a port table of the
-- kernel open the ports that were last written to it. After `sync_ports` the table opens a TCP port
-- to everyone exactly when a specification of `allow_tcp` covers it, or a TCP rule without a network
-- does; and a UDP port, when `allow_udp` or a rule of another protocol does, or it is a port of the
-- DHCP client.
pub compile-Opens :
    (policy : Policy) (c : Compiled) (t : Bool) (m : KernelMap ℕ ℕ) (open_ports : List ℕ) (p : ℕ)
    → compile policy ≡ some c
    → Agrees m open_ports
    → (port_open (sync_ports m open_ports (open_set t c)).0 p ≡ true)
      ↔ (Opens t p policy.rules ⊎ Listed t p policy)
compile-Opens policy c t m open_ports p h agrees =
    let sync = sync_ports-Agrees m open_ports (open_set t c) agrees in
    rw (sync.0 p, sync.1) (compile-open_set t p policy c h)
