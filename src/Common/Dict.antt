-- ===== src/Common/Dict.antt =====
-- The JavaScript `Map`: keys are distinct and iteration follows the order of insertion. `set` on a
-- present key keeps its place.
use mathlib.Core.Path.{◌≡◌, refl}
use mathlib.Core.Logic.{◌⊎◌, ◌≢◌}
use mathlib.Core.Option.{Option, none, some}
use mathlib.Core.List.{List, [], ◌∷◌}
use native.Mathlib.Omega.{arith}
use mathlib.Core.Bool.{Bool, true, false}
use mathlib.Core.Logic.{◌⊎◌, inl, inr}
use athena_flow_cli.Common.Lists.{find}
use athena_flow_cli.Common.Tests.{if◌then◌else◌, Eq, ◌==◌, Bool-cases}

abbrev pub Dict {ℓ κ} : Type ℓ → Type κ → Type (ℓ ⊔ κ)
Dict K V = List (K × V)

module _ {ℓ κ} {K : Type ℓ} {V : Type κ} ⦃e : Eq K⦄ where
  unfoldable pub get : K → Dict K V → Option V
  get k [] = none
  get k ((j, v) ∷ m) = if j == k then some v else get k m

  unfoldable pub set : K → V → Dict K V → Dict K V
  set k v [] = (k, v) ∷ []
  set k v ((j, w) ∷ m) = if j == k then (j, v) ∷ m else (j, w) ∷ set k v m

  unfoldable pub delete : K → Dict K V → Dict K V
  delete k [] = []
  delete k ((j, w) ∷ m) = let rest = delete k m in if j == k then rest else (j, w) ∷ rest

  pub get-set :
      (k j : K) (v : V) (m : Dict K V) → get j (set k v m) ≡ (if k == j then some v else get j m)
  unfolding get set
  get-set k j v [] = refl
  get-set k j v ((i, w) ∷ m) = ground (arith, get-set k j v m)

  pub get-delete :
      (k j : K) (m : Dict K V) → get j (delete k m) ≡ (if k == j then none else get j m)
  unfolding get delete
  get-delete k j [] = ground arith
  get-delete k j ((i, w) ∷ m) = ground (arith, get-delete k j m)

  pub get-set_self : (k : K) (v : V) (m : Dict K V) → get k (set k v m) ≡ some v
  get-set_self k v m = ground (arith, get-set k k v m)

  pub get-set_ne : (k j : K) (v : V) (m : Dict K V) → k ≢ j → get j (set k v m) ≡ get j m
  get-set_ne k j v m h = ground (arith, get-set k j v m)

  pub get-delete_self : (k : K) (m : Dict K V) → get k (delete k m) ≡ none
  get-delete_self k m = ground (arith, get-delete k k m)

  pub get-delete_ne : (k j : K) (m : Dict K V) → k ≢ j → get j (delete k m) ≡ get j m
  get-delete_ne k j m h = ground (arith, get-delete k j m)

  -- No key occurs twice.
  abbrev pub Distinct : Dict K V → Type κ
  Distinct [] = Unit
  Distinct ((k, v) ∷ m) = (get k m ≡ none) × Distinct m

  pub set-Distinct : (k : K) (v : V) (m : Dict K V) → Distinct m → Distinct (set k v m)
  unfolding get set
  set-Distinct k v [] d = (refl, tt)
  set-Distinct k v ((j, w) ∷ m) d = ground (arith, set-Distinct k v m, get-set k j v m)

  pub delete-Distinct : (k : K) (m : Dict K V) → Distinct m → Distinct (delete k m)
  unfolding get delete
  delete-Distinct k [] d = tt
  delete-Distinct k ((j, w) ∷ m) d = ground (arith, delete-Distinct k m, get-delete k j m)

  -- What a search through the entries finds is the value at its key.
  pub get-find :
      (p : K × V → Bool) (m : Dict K V) (k : K) (v : V)
      → Distinct m
      → find p m ≡ some (k, v)
      → get k m ≡ some v
  unfolding get
  get-find p [] k v d h = cc
  get-find p ((j, w) ∷ m) k v d h = elim (Bool-cases (p (j, w))) [
    | inl e ↦ ground arith
    | inr e ↦ ground (arith, get-find p m k v d.1)
  ]

  pub find-holds : (p : K × V → Bool) (m : Dict K V) (x : K × V) → find p m ≡ some x → p x ≡ true
  find-holds p [] x h = cc
  find-holds p (y ∷ m) x h = elim (Bool-cases (p y)) [
    | inl e ↦ ground arith
    | inr e ↦ ground (arith, find-holds p m x)
  ]

  -- A search that finds nothing rules every entry out.
  pub find-none :
      (p : K × V → Bool) (m : Dict K V) (k : K) (v : V)
      → find p m ≡ none
      → get k m ≡ some v
      → p (k, v) ≡ false
  unfolding get
  find-none p [] k v h g = cc
  find-none p ((j, w) ∷ m) k v h g = ground (arith, find-none p m k v)

  pub get-set_cases :
      (k j : K) (v w : V) (m : Dict K V)
      → get j (set k v m) ≡ some w
      → ((k ≡ j) × (v ≡ w)) ⊎ ((k ≢ j) × (get j m ≡ some w))
  get-set_cases k j v w m h = elim (e.dec k j) [
    | yes p ↦ inl (p, ground (arith, get-set k j v m))
    | no p ↦ inr (p, ground (arith, get-set k j v m))
  ]

  pub get-delete_cases :
      (k j : K) (w : V) (m : Dict K V) → get j (delete k m) ≡ some w → (k ≢ j) × (get j m ≡ some w)
  get-delete_cases k j w m h = elim (e.dec k j) [
    | yes p ↦ absurd (ground (arith, get-delete k j m))
    | no p ↦ (p, ground (arith, get-delete k j m))
  ]
