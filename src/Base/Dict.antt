-- ===== src/Base/Dict.antt =====
-- Go's `map[string]V` as an association list. A lookup is by the first entry of a key; the order of
-- the entries stands for the order in which `range` meets them, which Go leaves open.
use Prim.Native.Nat.{◌+◌, ◌≤◌, ◌<◌}
use Prim.Native.String.{String}
use mathlib.Core.Path.{◌≡◌, refl}
use mathlib.Core.Logic.{◌≢◌}
use mathlib.Core.Bool.{Bool, true, false}
use mathlib.Core.Option.{Option, none, some}
use mathlib.Core.List.{List, [], ◌∷◌}
use native.Mathlib.Omega.{arith}
use text.Mathlib.Text.{◌==◌ as str_eq}
use text.Mathlib.TextEquality.{eq_iff}
use text.Mathlib.TextPositions.{eq_refl}
use claw_hermes_ai_go.Base.Tests.{if◌then◌else◌}
use claw_hermes_ai_go.Base.Lists.{length}

abbrev pub Dict {ℓ} : Type ℓ → Type ℓ
Dict V = List (String × V)

module _ {ℓ} {V : Type ℓ} where
  unfoldable pub lookup : String → Dict V → Option V
  lookup key [] = none
  lookup key (entry ∷ rest) = if str_eq entry.0 key then some entry.1 else lookup key rest

  -- `m[key] = value`
  unfoldable pub insert : String → V → Dict V → Dict V
  insert key value [] = (key, value) ∷ []
  insert key value (entry ∷ rest) =
      let unmatched = entry ∷ insert key value rest in
      if str_eq entry.0 key then (key, value) ∷ rest else unmatched

  -- `delete(m, key)`
  unfoldable pub erase : String → Dict V → Dict V
  erase key [] = []
  erase key (entry ∷ rest) =
      let others = erase key rest in if str_eq entry.0 key then others else entry ∷ others

  -- Reading behind a write, and behind a deletion.
  pub lookup-insert :
      (written read : String) (value : V) (dict : Dict V)
      → lookup read (insert written value dict)
        ≡ (if str_eq written read then some value else lookup read dict)
  unfolding lookup insert
  lookup-insert written read value [] = refl
  lookup-insert written read value (entry ∷ rest) = ground (
    arith,
    lookup-insert written read value rest,
    eq_iff entry.0 written,
    eq_iff written read,
    eq_iff entry.0 read,
  )

  pub lookup-erase :
      (dropped read : String) (dict : Dict V)
      → lookup read (erase dropped dict) ≡ (if str_eq dropped read then none else lookup read dict)
  unfolding lookup erase
  lookup-erase dropped read [] = ground arith
  lookup-erase dropped read (entry ∷ rest) = ground (
    arith,
    lookup-erase dropped read rest,
    eq_iff entry.0 dropped,
    eq_iff dropped read,
    eq_iff entry.0 read,
  )

  pub lookup-insert_self : (k : String) (v : V) (m : Dict V) → lookup k (insert k v m) ≡ some v
  lookup-insert_self k v m = simp (lookup-insert, eq_refl)

  pub lookup-insert_ne :
      (k j : String) (v : V) (m : Dict V) → k ≢ j → lookup j (insert k v m) ≡ lookup j m
  lookup-insert_ne k j v m h = ground (arith, lookup-insert k j v m, eq_iff k j)

  pub lookup-erase_self : (k : String) (m : Dict V) → lookup k (erase k m) ≡ none
  lookup-erase_self k m = simp (lookup-erase, eq_refl)

  pub lookup-erase_ne : (k j : String) (m : Dict V) → k ≢ j → lookup j (erase k m) ≡ lookup j m
  lookup-erase_ne k j m h = ground (arith, lookup-erase k j m, eq_iff k j)

  pub length-insert-le : (k : String) (v : V) (m : Dict V) → length (insert k v m) ≤ length m + 1
  unfolding insert
  length-insert-le k v [] = omega arith
  length-insert-le k v ((i, w) ∷ m) = ground (arith, length-insert-le k v m)

  pub length-erase-le : (k : String) (m : Dict V) → length (erase k m) ≤ length m
  unfolding erase
  length-erase-le k [] = omega arith
  length-erase-le k ((i, w) ∷ m) = ground (arith, length-erase-le k m)

-- Membership of a key, as the `_, ok := m[k]` form tells it.
abbrev pub is_some {ℓ} : {V : Type ℓ} → Option V → Bool
is_some none = false
is_some (some v) = true

unfoldable pub has {ℓ} : {V : Type ℓ} → String → Dict V → Bool
has k m = is_some (lookup k m)

pub length-erase-has {ℓ} :
    {V : Type ℓ} (k : String) (m : Dict V) → has k m ≡ true → length (erase k m) < length m
unfolding has lookup erase
length-erase-has k [] h = absurd (cc)
length-erase-has k (entry ∷ rest) h =
    ground (arith, length-erase-has k rest, length-erase-le k rest)

pub length-insert-has {ℓ} :
    {V : Type ℓ} (k : String) (v : V) (m : Dict V)
    → has k m ≡ true
    → length (insert k v m) ≡ length m
unfolding has lookup insert
length-insert-has k v [] h = absurd (cc)
length-insert-has k v (entry ∷ rest) h = ground (arith, length-insert-has k v rest)
