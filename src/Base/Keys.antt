-- ===== src/Base/Keys.antt =====
-- Equality of keys as an interface, with numbers and pairs as instances.
use Prim.Native.Nat.{ℕ}
use mathlib.Core.Path.{◌≡◌, refl}
use mathlib.Core.Logic.{◌↔◌}
use mathlib.Core.Bool.{Bool, true, false}
use native.Mathlib.Omega.{arith}
use add_members.Base.Tests.{nat_beq, nat_beq_iff, if◌then◌else◌}

-- What Python's `==` says of two keys of a dictionary or a set.
pub record Key {ℓ} (K : Type ℓ) : Type ℓ where
  pub same : K → K → Bool
  pub same_iff : (k j : K) → (same k j ≡ true) ↔ (k ≡ j)

pub ==_refl {ℓ} : {K : Type ℓ} ⦃e : Key K⦄ (k : K) → e.same k k ≡ true
==_refl ⦃e⦄ k = (e.same_iff k k).1 refl

abbrev pub pair_beq {ℓ κ} : {K : Type ℓ} {J : Type κ} → Key K → Key J → K × J → K × J → Bool
pair_beq e f p q = if e.same p.0 q.0 then f.same p.1 q.1 else false

pub pair_beq_iff {ℓ κ} :
    {K : Type ℓ} {J : Type κ} (e : Key K) (f : Key J) (p q : K × J)
    → (pair_beq e f p q ≡ true) ↔ (p ≡ q)
pair_beq_iff e f p q = ground (arith, e.same_iff p.0 q.0, f.same_iff p.1 q.1)

instance abbrev pub pair_eq {ℓ κ} : {K : Type ℓ} {J : Type κ} ⦃e : Key K⦄ ⦃f : Key J⦄ → Key (K × J)
pair_eq ⦃e⦄ ⦃f⦄ = record { same = pair_beq e f; same_iff = pair_beq_iff e f }

instance abbrev pub nat_eq : Key ℕ
nat_eq = record { same_iff = nat_beq_iff; same = nat_beq }

infix 50 ◌==◌
abbrev pub ◌==◌ {ℓ} : {K : Type ℓ} ⦃e : Key K⦄ (k j : K) → Bool
◌==◌ ⦃e⦄ k j = e.same k j
