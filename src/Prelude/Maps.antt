-- ===== src/Prelude/Maps.antt =====
-- Maps. A kernel map is read through its lookup function; a hash map of the daemon is an
-- association list with one entry to a key.
use mathlib.Core.Path.{◌≡◌}
use mathlib.Core.Logic.{◌↔◌}
use mathlib.Core.Bool.{Bool, true}
use mathlib.Core.Option.{Option, none, some}
use mathlib.Core.List.{List, [], ◌∷◌}
use Prim.Native.Nat.{ℕ}
use ai_firewall.Prelude.Tests.{◌==◌, ==_iff, if◌then◌else◌, is_some}

pub record Eq {ℓ} (A : Type ℓ) : Type ℓ where
  pub beq : A → A → Bool
  pub beq_iff : (a b : A) → (beq a b ≡ true) ↔ (a ≡ b)

instance abbrev pub nat_eq : Eq ℕ
nat_eq = record { beq = ◌==◌; beq_iff = ==_iff }

abbrev pub KernelMap : Type 0 → Type 0 → Type 0
KernelMap K V = K → Option V

module _ {K V : Type 0} ⦃e : Eq K⦄ where
  -- The map with `v` at `k`.
  abbrev pub update : KernelMap K V → K → V → KernelMap K V
  update m k v j = if e.beq k j then some v else m j

  -- The map without `k`.
  abbrev pub without : KernelMap K V → K → KernelMap K V
  without m k j = if e.beq k j then none else m j

  abbrev pub get : K → List (K × V) → Option V
  get k [] = none
  get k ((j, v) ∷ m) = if e.beq j k then some v else get k m

  abbrev pub contains_key : K → List (K × V) → Bool
  contains_key k m = is_some (get k m)

  -- `insert`: a write in place, or a new entry.
  abbrev pub insert : K → V → List (K × V) → List (K × V)
  insert k v [] = (k, v) ∷ []
  insert k v ((j, w) ∷ m) = if e.beq j k then (k, v) ∷ m else (j, w) ∷ insert k v m

  abbrev pub remove : K → List (K × V) → List (K × V)
  remove k [] = []
  remove k ((j, v) ∷ m) = if e.beq j k then remove k m else (j, v) ∷ remove k m
