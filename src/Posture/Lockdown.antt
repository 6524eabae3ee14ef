-- ===== src/Posture/Lockdown.antt =====
-- The posture `lockdown` of ai-firewall/src/posture.rs, with `policy` (ai-firewall/src/config.rs) and
-- `compile` (ai-firewall/src/daemon.rs).
use ai_firewall.Prelude.{
  ◌≡◌, refl, sym, Bool-cases, inl, inr, true, false, Option, none, some, List, [], ◌∷◌, map, get,
  arith,
}
use ai_firewall.Text.{Text, codes, text_eq, text_Eq}
use ai_firewall.Config.Ports.{expand, collect, dedup, sort}
use ai_firewall.Config.Settings.{
  Config, Profile, Policy, policy, with_profile, lookup_profile, enforce,
}
use ai_firewall.Daemon.Rules.{Compiled, compile}
use ai_firewall.Posture.{apply, lockdown, closed_profile}

-- A profile of the configuration in lockdown is a closed one.
get-closed :
    (n : Text) (ps : List (Text × Profile)) (p : Profile)
    → get n (map closed_profile ps) ≡ some p
    → (p.allow_tcp ≡ some [])
      × (p.allow_udp ≡ some [])
      × (p.allow_ping ≡ some false)
      × (p.rules ≡ some [])
get-closed n [] p h = cc
get-closed n ((m, q) ∷ ps) p h = elim (Bool-cases (text_eq m n)) [
  | inl same ↦ ground arith
  | inr other ↦ get-closed n ps p (rw other at h)
]

abbrev closed : Compiled
closed = record { tcp = []; udp = 68 ∷ 546 ∷ []; from_tcp = []; from_udp = []; rates = [] }

closed_policy :
    (p : Policy) → p.allow_tcp ≡ [] → p.allow_udp ≡ [] → p.rules ≡ [] → compile p ≡ some closed
unfolding compile expand collect dedup sort
closed_policy p t u r = rw (t, u, r)

lockdown-policy :
    (cfg : Config) (name : Option Text) (o : Option Profile)
    → o ≡ lookup_profile name (map closed_profile cfg.profiles)
    → let p = with_profile (lockdown cfg) name o in
      (p.allow_tcp ≡ []) × (p.allow_udp ≡ []) × (p.allow_ping ≡ false) × (p.rules ≡ [])
unfolding with_profile lookup_profile lockdown
lockdown-policy cfg name none h = (refl, refl, refl, refl)
lockdown-policy cfg none (some p) h = cc
lockdown-policy cfg (some n) (some p) h =
    let c = get-closed n cfg.profiles p (sym h) in (rw c.0, rw c.1, rw c.2, rw c.3)

-- Under lockdown, whatever the configuration says and whichever network profile is active, the
-- filter enforces and drops pings, and the policy compiles to no open TCP port, no UDP port but
-- those of the DHCP client, no rule for a network and no limit.
pub lockdown_closes :
    (cfg : Config) (lan : List Text) (profile : Option Text)
    → let cfg' = apply (record { name = codes "lockdown"; lan = lan }) cfg in
      (enforce cfg' ≡ true)
      × ((policy cfg' profile).allow_ping ≡ false)
      × (compile (policy cfg' profile)
          ≡ some
              (record { tcp = []; udp = 68 ∷ 546 ∷ []; from_tcp = []; from_udp = []; rates = [] }))
unfolding apply enforce policy lockdown
lockdown_closes cfg lan profile =
    let cfg' : Config = record cfg { posture = some (codes "lockdown") } in
    let o = lookup_profile profile (map closed_profile cfg.profiles) in
    let c = lockdown-policy cfg' profile o refl in
    (refl, c.2, closed_policy (with_profile (lockdown cfg') profile o) c.0 c.1 c.3)
