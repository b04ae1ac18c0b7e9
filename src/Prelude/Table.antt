-- ===== src/Prelude/Table.antt =====
-- std::map and std::unordered_map keyed by text: an association list with one entry for a key.
-- Their order of iteration is the list's.
use Prim.Native.String.{String}
use mathlib.Core.Path.{◌≡◌, refl}
use mathlib.Core.Logic.{◌≢◌, ◌⊎◌, inl, inr}
use mathlib.Core.Bool.{Bool, true, false}
use mathlib.Core.Option.{Option, none, some}
use mathlib.Core.List.{List, [], ◌∷◌}
use native.Mathlib.Omega.{arith}
use text.Mathlib.Text.{◌==◌ as str_eq}
use text.Mathlib.TextEquality.{eq_iff}
use rdma_comm_core.Prelude.Tests.{if◌then◌else◌, Bool-cases}

abbrev pub same : String → String → Bool
same s t = str_eq s t

module _ {ℓ} {V : Type ℓ} where
  unfoldable pub find : String → List (String × V) → Option V
  find k [] = none
  find k ((j, v) ∷ m) = if same j k then some v else find k m

  -- map.insert({key, fresh}) keeps an entry that is there
  unfoldable pub insert : String → V → List (String × V) → List (String × V)
  insert key fresh [] = (key, fresh) ∷ []
  insert key fresh (entry ∷ rest) =
      if same entry.0 key then entry ∷ rest else entry ∷ insert key fresh rest

  unfoldable pub erase : String → List (String × V) → List (String × V)
  erase k [] = []
  erase k ((j, w) ∷ m) = if same j k then erase k m else (j, w) ∷ erase k m

  pub find-insert :
      (k j : String) (v : V) (m : List (String × V))
      → find k m ≡ none
      → find j (insert k v m) ≡ (if same k j then some v else find j m)
  unfolding find insert
  find-insert k j v [] h = refl
  find-insert k j v ((i, w) ∷ m) h =
      ground (arith, eq_iff k j, eq_iff i k, eq_iff i j, find-insert k j v m)

  pub find-erase :
      (k j : String) (m : List (String × V))
      → find j (erase k m) ≡ (if same k j then none else find j m)
  unfolding find erase
  find-erase k j [] = ground arith
  find-erase k j ((i, w) ∷ m) = ground (arith, eq_iff k j, eq_iff i k, eq_iff i j, find-erase k j m)

module _ {ℓ} {V : Type ℓ} where
  -- map[k] = v
  unfoldable pub assign : String → V → List (String × V) → List (String × V)
  assign k v [] = (k, v) ∷ []
  assign k v ((j, w) ∷ m) = if same j k then (j, v) ∷ m else (j, w) ∷ assign k v m

  pub find-assign :
      (k j : String) (v : V) (m : List (String × V))
      → find j (assign k v m) ≡ (if same k j then some v else find j m)
  unfolding find assign
  find-assign k j v [] = refl
  find-assign k j v ((i, w) ∷ m) =
      ground (arith, eq_iff k j, eq_iff i k, eq_iff i j, find-assign k j v m)

pub same_self : (k : String) → same k k ≡ true
same_self k = (eq_iff k k).1 refl

pub same_ne : (j k : String) → (j ≡ k → ⊥) → same j k ≡ false
same_ne j k ne = ground (arith, eq_iff j k)

pub same-cases : (j k : String) → (j ≡ k) ⊎ (j ≢ k)
same-cases j k = elim (Bool-cases (same j k)) [
  | inl e ↦ inl ((eq_iff j k).0 e)
  | inr e ↦ inr (λ x. ground (arith, eq_iff j k))
]
