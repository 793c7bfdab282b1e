-- ===== src/Prelude/Maps.antt =====
-- A Go map whose keys are numbers (addresses and hashes), by what a look-up answers: `none` is a
-- missing key. Maps are never iterated in an order-dependent way by the code that is modelled.
use Prim.Native.Nat.{ℕ}
use mathlib.Core.Path.{◌≡◌, fun_ext}
use mathlib.Core.Option.{Option, none, some}
use native.Mathlib.Omega.{arith}
use cardinal_evm.Prelude.Tests.{◌==◌, if◌then◌else◌}

abbrev pub Map {ℓ} : Type ℓ → Type ℓ
Map V = ℕ → Option V

module _ {ℓ} {V : Type ℓ} where
  abbrev pub empty_map : Map V
  empty_map k = none

  -- m[k] = v
  abbrev pub insert : Map V → ℕ → V → Map V
  insert m k v j = if k == j then some v else m j

  -- delete(m, k)
  abbrev pub delete : Map V → ℕ → Map V
  delete m k j = if k == j then none else m j

  pub delete-insert : (m : Map V) (k : ℕ) (v : V) → m k ≡ none → delete (insert m k v) k ≡ m
  delete-insert m k v h = fun_ext λ j. ground arith

  pub insert-insert : (m : Map V) (k : ℕ) (v w : V) → insert (insert m k v) k w ≡ insert m k w
  insert-insert m k v w = fun_ext λ j. ground arith

  pub insert_present : (m : Map V) (k : ℕ) (v : V) → m k ≡ some v → insert m k v ≡ m
  insert_present m k v h = fun_ext λ j. ground arith

  pub delete_absent : (m : Map V) (k : ℕ) → m k ≡ none → delete m k ≡ m
  delete_absent m k h = fun_ext λ j. ground arith
