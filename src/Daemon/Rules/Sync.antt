-- ===== src/Daemon/Rules/Sync.antt =====
-- `sync_ports` of ai-firewall/src/daemon.rs: the kernel's port table against the wanted set.
use ai_firewall.Prelude.{
  ℕ, ◌≡◌, refl, ap, inl, inr, Bool-cases, not, ◌&&◌, some, List, [], ◌∷◌, KernelMap, update, nat_eq,
  contains, ◌==◌, ==_iff, if◌then◌else◌, arith,
}
use ai_firewall.Kernel.Maps.{port_open}
use ai_firewall.Daemon.Rules.{difference, set_all, sync_ports}

contains-difference :
    (p : ℕ) (xs ys : List ℕ)
    → contains p (difference xs ys) ≡ (contains p xs && not (contains p ys))
unfolding difference
contains-difference p [] ys = refl
contains-difference p (x ∷ xs) ys = elim (Bool-cases (x == p)) [
  | inl same ↦
      let e : x ≡ p = (==_iff x p).0 same in
      let ce : contains x ys ≡ contains p ys = ap (λ z. contains z ys) e in
      ground (arith, contains-difference p xs ys)
  | inr other ↦ ground (arith, contains-difference p xs ys)
]

set_all-lookup :
    (v : ℕ) (ps : List ℕ) (m : KernelMap ℕ ℕ) (p : ℕ)
    → set_all v ps m p ≡ (if contains p ps then some v else m p)
unfolding set_all
set_all-lookup v [] m p = refl
set_all-lookup v (q ∷ ps) m p = ground (arith, set_all-lookup v ps (update m q v) p)

-- The table opens exactly the ports of the set.
abbrev pub Agrees : KernelMap ℕ ℕ → List ℕ → Type 0
Agrees m open_ports = (p : ℕ) → port_open m p ≡ contains p open_ports

-- If the kernel's port table opens the ports that were last written to it, then after `sync_ports`
-- it opens the wanted ports and no other.
pub sync_ports-Agrees :
    (m : KernelMap ℕ ℕ) (open_ports wanted : List ℕ)
    → Agrees m open_ports
    → let (m', open') = sync_ports m open_ports wanted in Agrees m' open' × (open' ≡ wanted)
unfolding sync_ports port_open
sync_ports-Agrees m open_ports wanted h = (agrees, refl)
  where
    agrees : Agrees (sync_ports m open_ports wanted).0 wanted
    agrees p =
        let closed = set_all 0 (difference open_ports wanted) m in
        ground (
          arith,
          h p,
          set_all-lookup 1 (difference wanted open_ports) closed p,
          set_all-lookup 0 (difference open_ports wanted) m p,
          contains-difference p wanted open_ports,
          contains-difference p open_ports wanted,
        )
