-- ===== src/Daemon/Apply/Reached.antt =====
-- What the kernel's tables hold after `apply_config`.
use mathlib.Core.Bool.{false≢true}
use ai_firewall.Prelude.{
  ℕ, ◌≡◌, refl, ap, ◌↔◌, ◌⊎◌, Bool, true, false, not, Option, none, some, nat_eq, subst,
}
use ai_firewall.Wire.{cfg_enforce, cfg_ephemeral_low, cfg_drop_ping, cfg_udp_strict}
use ai_firewall.Kernel.Interface.{Bpf}
use ai_firewall.Kernel.Maps.{port_open}
use ai_firewall.Config.Settings.{Config, Policy, enforce}
use ai_firewall.Detector.Float.{Float32}
use ai_firewall.State.Blocklist.{BanMap}
use ai_firewall.Daemon.{Shared}
use ai_firewall.Daemon.Rules.{Compiled, compile, sync_ports}
use ai_firewall.Daemon.Rules.Sync.{Agrees}
use ai_firewall.Daemon.Rules.Opened.{Opens, Listed, compile-Opens}
use ai_firewall.Daemon.Apply.{
  Tables, bit, write_settings, write_ports, write_rates, write_from_tcp, write_from_udp,
  write_compiled, write_policy, with_shared, then_udp, then_rates, apply_shared, apply_config,
}

-- The first parts of two equal results.
first_eq {ℓ κ} :
    {A : Type ℓ} {B : Type κ} {x y : A} {u v : B} → ◌≡◌ {A = A × B} (x, u) (y, v) → x ≡ y
first_eq {A = A} {B = B} h = ap (λ (p : A × B). p.0) h

module _ (b : Bpf) (c : Compiled) (t' : Tables b) where
  rates_done : (r : Tables b × Bool) → then_rates b c r ≡ (t', true) → write_rates b c r.0 ≡ t'
  unfolding then_rates
  rates_done (t, false) h = absurd (false≢true (ap (λ (p : Tables b × Bool). p.1) h))
  rates_done (t, true) h = first_eq h

  udp_done :
      (r : Tables b × Bool)
      → then_udp b c r ≡ (t', true)
      → write_rates b c (write_from_udp b c r.0).0 ≡ t'
  unfolding then_udp
  udp_done (t, false) h = absurd (false≢true (ap (λ (p : Tables b × Bool). p.1) h))
  udp_done (t, true) h = rates_done (write_from_udp b c t) h

-- What the writes of a compiled policy leave of the settings and the ports, if none fails.
record IsWritten (b : Bpf) (c : Compiled) (t t' : Tables b) : Type 0 where
  settings : t'.settings ≡ t.settings
  tcp : t'.tcp ≡ (sync_ports t.tcp t.open_tcp c.tcp).0
  udp : t'.udp ≡ (sync_ports t.udp t.open_udp c.udp).0

compiled-IsWritten :
    (b : Bpf) (c : Compiled) (t t' : Tables b)
    → write_compiled b c t ≡ (t', true)
    → IsWritten b c t t'
unfolding write_compiled write_ports write_rates write_from_tcp write_from_udp
compiled-IsWritten b c t t' h =
    let made = udp_done b c t' (write_from_tcp b c (write_ports b c t)) h in
    subst (IsWritten b c t) made (record { settings = refl; tcp = refl; udp = refl })

-- The kernel's tables carry the configuration and the policy out.
pub record IsReached (b : Bpf) (low : ℕ) (cfg : Config) (policy : Policy) (t t' : Tables b)
    : Type 0 where
  pub enforces : t'.settings cfg_enforce ≡ some (bit (enforce cfg))
  pub ephemeral : t'.settings cfg_ephemeral_low ≡ some low
  pub pings : t'.settings cfg_drop_ping ≡ some (bit (not policy.allow_ping))
  pub strict : t'.settings cfg_udp_strict ≡ t.settings cfg_udp_strict
  pub tcp_ports :
      (p : ℕ) → (port_open t'.tcp p ≡ true) ↔ (Opens true p policy.rules ⊎ Listed true p policy)
  pub udp_ports :
      (p : ℕ) → (port_open t'.udp p ≡ true) ↔ (Opens false p policy.rules ⊎ Listed false p policy)

module _ (b : Bpf) (fl : Float32) (k : BanMap) where
  with_shared-some :
      (boot_ns : ℕ) (cfg : Config) (s s' : Shared fl) (r : Tables b × Bool) (t' : Tables b)
      → with_shared b fl k boot_ns cfg s r ≡ (t', s', true)
      → (r ≡ (t', true)) × (apply_shared fl k boot_ns cfg s ≡ (s', true))
  unfolding with_shared
  with_shared-some boot_ns cfg s s' (t, false) t' h =
      absurd (false≢true (ap (λ (p : Tables b × Shared fl × Bool). p.2) h))
  with_shared-some boot_ns cfg s s' (t, true) t' h = (λ i. ((h i).0, true), λ i. ((h i).1, (h i).2))

  write_policy-some :
      (boot_ns : ℕ) (cfg : Config) (o : Option Compiled) (t t' : Tables b) (s s' : Shared fl)
      → write_policy b fl k boot_ns cfg o t s ≡ (t', s', true)
      → (c : Compiled) × (o ≡ some c)
        × (write_compiled b c t ≡ (t', true))
        × (apply_shared fl k boot_ns cfg s ≡ (s', true))
  unfolding write_policy
  write_policy-some boot_ns cfg none t t' s s' h =
      absurd (false≢true (ap (λ (p : Tables b × Shared fl × Bool). p.2) h))
  write_policy-some boot_ns cfg (some c) t t' s s' h =
      let (written, shared) = with_shared-some boot_ns cfg s s' (write_compiled b c t) t' h in
      (c, refl, written, shared)

  -- When `apply_config` reports no error, and each port table opened the ports that were last written
  -- to it, then the kernel's settings say whether to enforce, from where the ephemeral ports run and
  -- whether to drop pings, as the configuration and the policy have it, and the switch of strict UDP
  -- is as before; a port table opens a port to everyone exactly when the policy does; and the
  -- daemon's own part was applied without an error, too.
  pub apply_config-IsReached :
      (low boot_ns : ℕ) (cfg : Config) (policy : Policy) (t t' : Tables b) (s s' : Shared fl)
      → Agrees t.tcp t.open_tcp
      → Agrees t.udp t.open_udp
      → apply_config b fl k low boot_ns cfg policy t s ≡ (t', s', true)
      → IsReached b low cfg policy t t' × (apply_shared fl k boot_ns cfg s ≡ (s', true))
  unfolding apply_config write_settings
  apply_config-IsReached low boot_ns cfg policy t t' s s' tcp udp h =
      let before = write_settings b low cfg policy t in
      let (c, compiled, written, shared) =
        write_policy-some boot_ns cfg (compile policy) before t' s s' h in
      let w = compiled-IsWritten b c before t' written in
      (
        record {
          enforces = ap (λ m. m cfg_enforce) w.settings;
          ephemeral = ap (λ m. m cfg_ephemeral_low) w.settings;
          pings = ap (λ m. m cfg_drop_ping) w.settings;
          strict = ap (λ m. m cfg_udp_strict) w.settings;
          tcp_ports = λ p. rw w.tcp (compile-Opens policy c true t.tcp t.open_tcp p compiled tcp);
          udp_ports = λ p. rw w.udp (compile-Opens policy c false t.udp t.open_udp p compiled udp);
        },
        shared,
      )
