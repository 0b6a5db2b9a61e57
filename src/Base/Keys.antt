-- ===== src/Base/Keys.antt =====
-- Go's maps as association lists, over any key type with a decided equality.
use go_homeconnect2mqtt.Base.Tests.{if◌then◌else◌, nat_beq, nat_beq_iff}
use go_homeconnect2mqtt.Base.Int.{ℤ, int_beq, int_beq_iff}
use Prim.Native.Nat.{ℕ}
use Prim.Native.String.{String}
use mathlib.Core.Path.{◌≡◌, refl}
use mathlib.Core.Logic.{◌↔◌}
use mathlib.Core.Bool.{Bool, true}
use mathlib.Core.Option.{Option, none, some}
use mathlib.Core.List.{List, [], ◌∷◌}
use native.Mathlib.Omega.{arith}
use text.Mathlib.Text.{◌==◌ as str_beq}
use text.Mathlib.TextEquality.{eq_iff}

pub record Key {ℓ} (A : Type ℓ) : Type ℓ where
  pub same : A → A → Bool
  pub same_iff : (a b : A) → (same a b ≡ true) ↔ (a ≡ b)

infix 50 ◌==◌
abbrev pub ◌==◌ {ℓ} : {A : Type ℓ} ⦃e : Key A⦄ → A → A → Bool
◌==◌ ⦃e⦄ = e.same

instance abbrev pub nat_key : Key ℕ
nat_key = record { same = nat_beq; same_iff = nat_beq_iff }

instance abbrev pub int_key : Key ℤ
int_key = record { same = int_beq; same_iff = int_beq_iff }

instance abbrev pub text_key : Key String
text_key = record { same = str_beq; same_iff = eq_iff }

pub ==_iff {ℓ} : {A : Type ℓ} ⦃e : Key A⦄ (a b : A) → ((a == b) ≡ true) ↔ (a ≡ b)
==_iff ⦃e⦄ a b = e.same_iff a b

pub ==_self {ℓ} : {A : Type ℓ} ⦃e : Key A⦄ (a : A) → (a == a) ≡ true
==_self ⦃e⦄ a = (e.same_iff a a).1 refl

module _ {ℓ κ} {K : Type ℓ} {V : Type κ} ⦃e : Key K⦄ where
  -- `v, ok := m[k]`
  unfoldable pub lookup : K → List (K × V) → Option V
  lookup key [] = none
  lookup key ((j, v) ∷ es) = if j == key then some v else lookup key es

  -- `m[k] = v`: replaces the entry, or adds one.
  unfoldable pub insert : K → V → List (K × V) → List (K × V)
  insert key v [] = (key, v) ∷ []
  insert key v ((j, w) ∷ es) = if j == key then (key, v) ∷ es else (j, w) ∷ insert key v es

  -- `delete(m, k)`
  unfoldable pub delete : K → List (K × V) → List (K × V)
  delete key [] = []
  delete key ((j, w) ∷ es) = let rest = delete key es in if j == key then rest else (j, w) ∷ rest

  pub lookup-insert :
      (key j : K) (v : V) (es : List (K × V))
      → lookup j (insert key v es) ≡ (if key == j then some v else lookup j es)
  unfolding lookup insert
  lookup-insert key j v [] = refl
  lookup-insert key j v ((i, w) ∷ es) =
      ground (arith, e.same_iff key j, e.same_iff i key, e.same_iff i j, lookup-insert key j v es)

  pub lookup-delete :
      (key j : K) (es : List (K × V))
      → lookup j (delete key es) ≡ (if key == j then none else lookup j es)
  unfolding lookup delete
  lookup-delete key j [] = ground arith
  lookup-delete key j ((i, w) ∷ es) =
      ground (arith, e.same_iff key j, e.same_iff i key, e.same_iff i j, lookup-delete key j es)

  pub lookup-insert_self :
      (key : K) (v : V) (es : List (K × V)) → lookup key (insert key v es) ≡ some v
  lookup-insert_self key v es = rw (lookup-insert, ==_self key)

  pub lookup-delete_self : (key : K) (es : List (K × V)) → lookup key (delete key es) ≡ none
  lookup-delete_self key es = rw (lookup-delete, ==_self key)
