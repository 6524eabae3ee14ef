-- ===== src/Daemon/Rules/Validated.antt =====
-- The checks of `Config::validate` (ai-firewall/src/config.rs) against what `compile`
-- (ai-firewall/src/daemon.rs) can refuse.
use ai_firewall.Prelude.{
  ℕ, ◌≡◌, refl, sym, Bool, Bool-cases, Option-cases, inl, inr, true, ◌&&◌, Option, none, some, List,
  [], ◌∷◌, get, is_some, unwrap_or, arith,
}
use ai_firewall.Text.{Text, codes, text_eq, text_Eq}
use ai_firewall.Config.Cidr
use ai_firewall.Config.Cidr.{Cidr}
use ai_firewall.Config.Ports.{Rule, ports, expand, rate}
use ai_firewall.Config.Settings.{
  Config, Profile, policy, with_profile, lookup_profile, validate, check_policy, check_rule,
  check_profile, all_of, from_parses, rate_fits,
}
use ai_firewall.Daemon.Rules.{
  Compiled, compile, compile_lists, add_rules, add_rule, add_parsed, parse_from,
}

parse_from-some : (f : Option Text) → from_parses f ≡ true → is_some (parse_from f) ≡ true
unfolding parse_from
parse_from-some none h = refl
parse_from-some (some t) h = elim (Option-cases (Cidr.parse t)) [
  | inl bad ↦ absurd (ground (arith, bad))
  | inr (c, good) ↦ rw (good, parse_from)
]

add_parsed-some :
    (b tcp : Bool) (from : Option (Option Cidr)) (limit : Option (Option (ℕ × ℕ)))
    (r : Option (ℕ × ℕ)) (c : Compiled)
    → is_some from ≡ true
    → rate_fits tcp limit ≡ true
    → is_some r ≡ true
    → is_some (add_parsed b from limit r c) ≡ true
unfolding add_parsed
add_parsed-some b tcp none limit r c f l p = cc
add_parsed-some b tcp (some from) none r c f l p = cc
add_parsed-some b tcp (some from) (some limit) none c f l p = cc
add_parsed-some b tcp (some from) (some limit) (some r) c f l p = refl

add_rule-some : (r : Rule) (c : Compiled) → check_rule r ≡ true → is_some (add_rule r c) ≡ true
unfolding add_rule check_rule
add_rule-some r c h =
    add_parsed-some (text_eq r.proto (codes "tcp")) (text_eq r.proto (codes "tcp"))
      (parse_from r.from) (rate r) (ports r.port) c (parse_from-some r.from (ground arith))
      (ground arith) (ground arith)

add_rules-some :
    (rs : List Rule) (c : Compiled) → all_of check_rule rs ≡ true → is_some (add_rules rs c) ≡ true
unfolding add_rules
add_rules-some [] c h = refl
add_rules-some (r ∷ rs) c h = elim (Option-cases (add_rule r c)) [
  | inl bad ↦ absurd (ground (arith, add_rule-some r c))
  | inr (d, good) ↦ rw (good, add_rules) (add_rules-some rs d (ground arith))
]

compile_lists-some :
    (tcp udp : Option (List ℕ)) (rs : List Rule)
    → is_some tcp ≡ true
    → is_some udp ≡ true
    → all_of check_rule rs ≡ true
    → is_some (compile_lists tcp udp rs) ≡ true
unfolding compile_lists
compile_lists-some none udp rs t u h = cc
compile_lists-some (some tcp) none rs t u h = cc
compile_lists-some (some tcp) (some udp) rs t u h = add_rules-some rs _ h

-- What holds of the empty list and of the base settings holds of a profile's value over them.
over_base :
    {A : Type 0} (good : List A → Bool) (o : Option (List A)) (base : List A)
    → good (unwrap_or o []) ≡ true
    → good base ≡ true
    → good (unwrap_or o base) ≡ true
over_base good none base p b = b
over_base good (some xs) base p b = p

profile_checked :
    (n : Text) (ps : List (Text × Profile)) (p : Profile)
    → all_of check_profile ps ≡ true
    → get n ps ≡ some p
    → check_policy (unwrap_or p.allow_tcp []) (unwrap_or p.allow_udp []) (unwrap_or p.rules [])
      ≡ true
profile_checked n [] p h g = cc
profile_checked n ((m, q) ∷ ps) p h g = elim (Bool-cases (text_eq m n)) [
  | inl same ↦ let at : q ≡ p = ground arith in rw (← at) (first _ _ h)
  | inr other ↦ profile_checked n ps p (second _ _ h) (rw other at g)
]
  where
    first : (a b : Bool) → (a && b) ≡ true → a ≡ true
    first a b h = ground arith

    second : (a b : Bool) → (a && b) ≡ true → b ≡ true
    second a b h = ground arith

with_profile-compiles :
    (cfg : Config) (name : Option Text) (o : Option Profile)
    → check_policy cfg.allow_tcp cfg.allow_udp cfg.rules ≡ true
    → all_of check_profile cfg.profiles ≡ true
    → o ≡ lookup_profile name cfg.profiles
    → is_some (compile (with_profile cfg name o)) ≡ true
unfolding with_profile lookup_profile compile check_policy
with_profile-compiles cfg name none base ps h =
    compile_lists-some (expand cfg.allow_tcp) (expand cfg.allow_udp) cfg.rules (ground arith)
      (ground arith) (ground arith)
with_profile-compiles cfg none (some p) base ps h = cc
with_profile-compiles cfg (some n) (some p) base ps h =
    let checked = profile_checked n cfg.profiles p ps (sym h) in
    compile_lists-some (expand (unwrap_or p.allow_tcp cfg.allow_tcp))
      (expand (unwrap_or p.allow_udp cfg.allow_udp)) (unwrap_or p.rules cfg.rules)
      (over_base (λ xs. is_some (expand xs)) p.allow_tcp cfg.allow_tcp (ground (arith, checked))
        (ground arith))
      (over_base (λ xs. is_some (expand xs)) p.allow_udp cfg.allow_udp (ground (arith, checked))
        (ground arith))
      (over_base (all_of check_rule) p.rules cfg.rules (ground (arith, checked)) (ground arith))

-- Settings that pass `validate` compile, whichever network profile is active: no list, rule, network
-- or limit in them is refused when they are applied.
pub validate-compiles :
    (cfg : Config) (profile : Option Text)
    → validate cfg ≡ true
    → is_some (compile (policy cfg profile)) ≡ true
unfolding validate policy
validate-compiles cfg profile h =
    with_profile-compiles cfg profile (lookup_profile profile cfg.profiles) (ground arith)
      (ground arith) refl
