-- ===== src/Prelude/Unique.antt =====
-- Dicts whose values are told apart by a tag, and searches through their values.
use mathlib.Core.Path.{◌≡◌, refl}
use mathlib.Core.Logic.{inl, inr}
use mathlib.Core.Bool.{Bool, true, false}
use mathlib.Core.Option.{Option, none, some}
use mathlib.Core.List.{List, [], ◌∷◌}
use native.Mathlib.Omega.{arith}
use Prim.Native.String.{String}
use text.Mathlib.TextEquality.{eq_iff}
use text.Mathlib.TextPositions.{eq_refl}
use service_order_os_service.Prelude.Tests.{if◌then◌else◌, Bool-cases}
use service_order_os_service.Prelude.Dict.{
  Dict, lookup, insert, erase, values, lookup-insert, lookup-erase,
}

module _ {ℓ} {V : Type ℓ} where
  -- `next((item for item in items if p(item)), None)`
  unfoldable pub find : (V → Bool) → List V → Option V
  find p [] = none
  find p (x ∷ xs) = if p x then some x else find p xs

  -- No key is listed twice.
  abbrev pub Distinct : Dict V → Type ℓ
  Distinct [] = Unit
  Distinct ((k, v) ∷ d) = (lookup k d ≡ none) × Distinct d

  pub insert-Distinct : (k : String) (v : V) (d : Dict V) → Distinct d → Distinct (insert k v d)
  unfolding insert lookup
  insert-Distinct k v [] h = (refl, tt)
  insert-Distinct k v ((j, w) ∷ d) h =
      ground (arith, insert-Distinct k v d h.1, lookup-insert k j v d, eq_iff k j, eq_iff j k)

  pub erase-Distinct : (k : String) (d : Dict V) → Distinct d → Distinct (erase k d)
  unfolding erase lookup
  erase-Distinct k [] h = tt
  erase-Distinct k ((j, w) ∷ d) h =
      ground (arith, erase-Distinct k d h.1, lookup-erase k j d, eq_iff k j, eq_iff j k)

  -- What a search passes over fails the test.
  pub find_misses :
      (p : V → Bool) (d : Dict V) (k : String) (v : V)
      → find p (values d) ≡ none
      → lookup k d ≡ some v
      → p v ≡ false
  unfolding find values lookup
  find_misses p [] k v h e = cc
  find_misses p ((j, w) ∷ d) k v h e = ground (arith, find_misses p d k v)

  -- What a search returns passes the test.
  pub find_passes : (p : V → Bool) (d : Dict V) (v : V) → find p (values d) ≡ some v → p v ≡ true
  unfolding find values
  find_passes p [] v h = cc
  find_passes p ((j, w) ∷ d) v h = ground (arith, find_passes p d v)

  lookup-ne :
      (j k : String) (w v : V) (d : Dict V)
      → lookup j d ≡ none
      → lookup k d ≡ some v
      → lookup k ((j, w) ∷ d) ≡ some v
  unfolding lookup
  lookup-ne j k w v d h e = ground (arith, eq_iff j k)

  -- What a search returns is stored under some key.
  pub find_stored :
      (p : V → Bool) (d : Dict V) (v : V)
      → Distinct d
      → find p (values d) ≡ some v
      → (k : String) × (lookup k d ≡ some v)
  unfolding find values
  find_stored p [] v u h = absurd (cc)
  find_stored p ((j, w) ∷ d) v u h = elim (Bool-cases (p w)) [
    | inl hit ↦ (j, unfold lookup in ground (arith, eq_refl j))
    | inr miss ↦
        let rest = find_stored p d v u.1 (ground arith) in
        (rest.0, lookup-ne j rest.0 w v d u.0 rest.1)
  ]

  module _ (tag : V → Option String) where
    -- Two entries with one tag are one entry.
    pub record IsUnique (d : Dict V) : Type ℓ where
      pub unique :
          (i j : String) (a b : V) (t : String)
          → lookup i d ≡ some a
          → lookup j d ≡ some b
          → tag a ≡ some t
          → tag b ≡ some t
          → i ≡ j

    pub insert-IsUnique :
        (k : String) (v : V) (d : Dict V)
        → IsUnique d
        → ((j : String) (b : V) (t : String)
            → lookup j d ≡ some b
            → tag v ≡ some t
            → tag b ≡ some t
            → j ≡ k)
        → IsUnique (insert k v d)
    insert-IsUnique k v d u free = record {
      unique = λ i j a b t p q r s. ground (
        arith,
        lookup-insert k i v d,
        lookup-insert k j v d,
        eq_iff k i,
        eq_iff k j,
        u.unique i j a b t,
        free j b t,
        free i a t,
      );
    }

    pub erase-IsUnique : (k : String) (d : Dict V) → IsUnique d → IsUnique (erase k d)
    erase-IsUnique k d u = record {
      unique = λ i j a b t p q r s.
          ground (arith, lookup-erase k i d, lookup-erase k j d, u.unique i j a b t);
    }
