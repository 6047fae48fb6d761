-- ===== src/Prelude/Table.antt =====
-- A DynamoDB table with a hash key: the items in an association list, the first of a key counts.
use Prim.Native.String.{String}
use mathlib.Core.Path.{◌≡◌, refl}
use mathlib.Core.Logic.{◌≢◌}
use mathlib.Core.Option.{Option, none, some}
use mathlib.Core.List.{List, [], ◌∷◌}
use native.Mathlib.Omega.{arith}
use text.Mathlib.Text.{◌==◌}
use text.Mathlib.TextEquality.{eq_iff}
use delayed_wallet_transacti.Prelude.Tests.{if◌then◌else◌}
use delayed_wallet_transacti.Prelude.Int.{ℤ, pos, ◌+ℤ◌, int_laws}

abbrev pub Table {ℓ} : Type ℓ → Type ℓ
Table V = List (String × V)

module _ {ℓ} {V : Type ℓ} where
  unfoldable pub lookup : String → Table V → Option V
  lookup k [] = none
  lookup k ((j, v) ∷ t) = if j == k then some v else lookup k t

  unfoldable pub insert : String → V → Table V → Table V
  insert k v [] = (k, v) ∷ []
  insert k v ((j, w) ∷ t) = if j == k then (k, v) ∷ t else (j, w) ∷ insert k v t

  unfoldable pub erase : String → Table V → Table V
  erase k [] = []
  erase k ((j, w) ∷ t) = if j == k then erase k t else (j, w) ∷ erase k t

  pub lookup-insert :
      (k j : String) (v : V) (t : Table V)
      → lookup j (insert k v t) ≡ (if k == j then some v else lookup j t)
  unfolding lookup insert
  lookup-insert k j v [] = refl
  lookup-insert k j v ((i, w) ∷ t) =
      ground (arith, eq_iff k j, eq_iff i k, eq_iff i j, lookup-insert k j v t)

  pub lookup-insert_same : (k : String) (v : V) (t : Table V) → lookup k (insert k v t) ≡ some v
  lookup-insert_same k v t = ground (arith, lookup-insert k k v t, eq_iff k k)

  pub lookup-erase :
      (k j : String) (t : Table V) → lookup j (erase k t) ≡ (if k == j then none else lookup j t)
  unfolding lookup erase
  lookup-erase k j [] = ground arith
  lookup-erase k j ((i, w) ∷ t) =
      ground (arith, eq_iff k j, eq_iff i k, eq_iff i j, lookup-erase k j t)

  -- The sum of a measure over the items.
  unfoldable pub sum_by : (V → ℤ) → Table V → ℤ
  sum_by f [] = pos 0
  sum_by f ((_, v) ∷ t) = f v +ℤ sum_by f t

  pub sum_by-insert :
      (f : V → ℤ) (k : String) (v old : V) (t : Table V)
      → lookup k t ≡ some old
      → sum_by f (insert k v t) +ℤ f old ≡ sum_by f t +ℤ f v
  unfolding lookup insert sum_by
  sum_by-insert f k v old [] e = cc
  sum_by-insert f k v old ((i, w) ∷ t) e = grind (int_laws, sum_by-insert f k v old t)

  pub sum_by-insert_same :
      (f : V → ℤ) (k : String) (v old : V) (t : Table V)
      → lookup k t ≡ some old
      → f v ≡ f old
      → sum_by f (insert k v t) ≡ sum_by f t
  sum_by-insert_same f k v old t e same = grind (int_laws, sum_by-insert f k v old t e)

  -- A key that is not written keeps its item.
  pub lookup-insert_ne :
      (j k : String) (v : V) (t : Table V) → j ≢ k → lookup k (insert j v t) ≡ lookup k t
  lookup-insert_ne j k v t ne = ground (arith, lookup-insert j k v t, eq_iff j k)

  pub sum_by-insert_new :
      (f : V → ℤ) (k : String) (v : V) (t : Table V)
      → lookup k t ≡ none
      → sum_by f (insert k v t) ≡ sum_by f t +ℤ f v
  unfolding lookup insert sum_by
  sum_by-insert_new f k v [] e = omega int_laws
  sum_by-insert_new f k v ((i, w) ∷ t) e = grind (int_laws, sum_by-insert_new f k v t)
