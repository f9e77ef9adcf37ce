-- ===== src/Prelude/Keys.antt =====
-- Keys with a decidable equality, as an instance: texts, numbers and pairs of keys.
use Prim.Native.Nat.{ℕ}
use Prim.Native.String.{String}
use mathlib.Core.Path.{◌≡◌}
use mathlib.Core.Logic.{◌↔◌}
use mathlib.Core.Bool.{Bool, true, ◌&&◌}
use native.Mathlib.Omega.{arith}
use text.Mathlib.Text.{◌==◌ as str_eq}
use text.Mathlib.TextEquality.{eq_iff}
use is_ntust_down.Prelude.Tests.{◌==◌}

pub record KeyEq {ℓ} (K : Type ℓ) : Type ℓ where
  pub same : K → K → Bool
  pub same_iff : (a b : K) → (same a b ≡ true) ↔ (a ≡ b)

abbrev pub same_key {ℓ} : {K : Type ℓ} ⦃e : KeyEq K⦄ → K → K → Bool
same_key ⦃e⦄ = e.same

pub ==_iff : (a b : ℕ) → ((a == b) ≡ true) ↔ (a ≡ b)
==_iff a b = ground arith

instance abbrev pub nat_key : KeyEq ℕ
nat_key = record { same = ◌==◌; same_iff = ==_iff }

instance abbrev pub text_key : KeyEq String
text_key = record { same = str_eq; same_iff = eq_iff }

module _ {ℓ κ} {A : Type ℓ} {B : Type κ} ⦃ea : KeyEq A⦄ ⦃eb : KeyEq B⦄ where
  abbrev pub same_pair : A × B → A × B → Bool
  same_pair p q = ea.same p.0 q.0 && eb.same p.1 q.1

  pub same_pair_iff : (p q : A × B) → (same_pair p q ≡ true) ↔ (p ≡ q)
  same_pair_iff p q = ground (arith, ea.same_iff p.0 q.0, eb.same_iff p.1 q.1)

  instance abbrev pub pair_key : KeyEq (A × B)
  pair_key = record { same = same_pair; same_iff = same_pair_iff }
