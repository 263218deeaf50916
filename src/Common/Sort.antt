-- ===== src/Common/Sort.antt =====
-- `ORDER BY`: a stable insertion sort by a Boolean order.
use athena_flow_cli.Common.{
  ◌≡◌, refl, ◌⊎◌, inl, inr, Bool-cases, arith, All, arith, ◌≡◌, Bool, true, List, [], ◌∷◌,
  if◌then◌else◌,
}
use mathlib.Core.List.{Perm}
use mathlib.Core.List.Perm

module _ {ℓ} {A : Type ℓ} (before : A → A → Bool) where
  unfoldable pub place : A → List A → List A
  place x [] = x ∷ []
  place x (y ∷ ys) = if before x y then x ∷ y ∷ ys else y ∷ place x ys

  unfoldable pub order_by : List A → List A
  unfolding place
  order_by [] = []
  order_by (x ∷ xs) = place x (order_by xs)

  -- Each entry comes before the one that follows it.
  abbrev pub IsOrdered : List A → Type 0
  IsOrdered [] = Unit {0}
  IsOrdered (x ∷ []) = Unit {0}
  IsOrdered (x ∷ y ∷ r) = (before x y ≡ true) × IsOrdered (y ∷ r)

  -- A list that is in order already is not changed.
  pub order_by_ordered : (xs : List A) → IsOrdered xs → order_by xs ≡ xs
  unfolding order_by place
  order_by_ordered [] h = refl
  order_by_ordered (x ∷ []) h = refl
  order_by_ordered (x ∷ y ∷ r) h = rw (order_by_ordered (y ∷ r) h.1) (ground arith)

  -- A total order sorts: `before` decides each pair one way or the other.
  module _ (total : (x y : A) → (before x y ≡ true) ⊎ (before y x ≡ true)) where
    place-IsOrdered : (x : A) (ys : List A) → IsOrdered ys → IsOrdered (place x ys)
    unfolding place
    place-IsOrdered x [] h = tt
    place-IsOrdered x (y ∷ []) h = elim (Bool-cases (before x y)) [
      | inl e ↦ rw e (e, tt)
      | inr e ↦ rw e (ground (arith, total x y), tt)
    ]
    place-IsOrdered x (y ∷ z ∷ r) h = elim (Bool-cases (before x y)) [
      | inl e ↦ rw e (e, h)
      | inr e ↦ rw e (elim (Bool-cases (before x z)) [
        | inl f ↦ rw f (ground (arith, total x y), (f, h.1))
        | inr f ↦ rw f (h.0, rw (f, place) at (place-IsOrdered x (z ∷ r) h.1))
      ])
    ]

    pub order_by-IsOrdered : (xs : List A) → IsOrdered (order_by xs)
    unfolding order_by
    order_by-IsOrdered [] = tt
    order_by-IsOrdered (x ∷ xs) = place-IsOrdered x (order_by xs) (order_by-IsOrdered xs)

  pub place-All {κ} : (P : A → Type κ) (x : A) (ys : List A) → P x → All P ys → All P (place x ys)
  unfolding place
  place-All P x [] h k = (h, tt)
  place-All P x (y ∷ ys) h (k, ks) = elim (Bool-cases (before x y)) [
    | inl e ↦ rw e (h, (k, ks))
    | inr e ↦ rw e (k, place-All P x ys h ks)
  ]

  pub order_by-All {κ} : (P : A → Type κ) (xs : List A) → All P xs → All P (order_by xs)
  unfolding order_by
  order_by-All P [] h = tt
  order_by-All P (x ∷ xs) (h, hs) = place-All P x (order_by xs) h (order_by-All P xs hs)

  place_perm : (x : A) (ys : List A) → Perm (place x ys) (x ∷ ys)
  unfolding place
  place_perm x [] = Perm.refl (x ∷ [])
  place_perm x (y ∷ ys) = elim (Bool-cases (before x y)) [
    | inl e ↦ rw e (Perm.refl (x ∷ y ∷ ys))
    | inr e ↦ rw e (Perm.trans (Perm.cons y (place_perm x ys)) (Perm.swap x y ys))
  ]

  pub order_by-perm : (xs : List A) → Perm (order_by xs) xs
  unfolding order_by
  order_by-perm [] = Perm.refl []
  order_by-perm (x ∷ xs) = Perm.trans (place_perm x (order_by xs)) (Perm.cons x (order_by-perm xs))
