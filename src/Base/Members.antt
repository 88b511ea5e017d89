-- ===== src/Base/Members.antt =====
-- What a list holds, and in which order.
use mathlib.Core.Path.{◌≡◌, refl, ap}
use mathlib.Core.Bool.{Bool, true}
use mathlib.Core.Logic.{◌⊎◌, inl, inr}
use mathlib.Core.List.{List, [], ◌∷◌, ◌++◌, map, append_assoc}
use warder.Base.Tests.{Bool-cases}
use warder.Base.Lists.{filter, any, All}

module _ {ℓ} {A : Type ℓ} where
  -- The list has it at some place.
  abbrev pub Holds : List A → A → Type ℓ
  Holds xs v = (before : List A) × (after : List A) × (xs ≡ before ++ v ∷ after)

  pub Holds-cons : (x : A) (xs : List A) (v : A) → Holds xs v → Holds (x ∷ xs) v
  Holds-cons x xs v (before, after, e) = (x ∷ before, after, ap (λ l. x ∷ l) e)

  pub Holds-self : (x : A) (xs : List A) (v : A) → v ≡ x → Holds (x ∷ xs) v
  Holds-self x xs v e = ([], xs, rw e refl)

  pub Holds-cases : (x : A) (xs : List A) (v : A) → Holds (x ∷ xs) v → (v ≡ x) ⊎ Holds xs v
  Holds-cases x xs v ([], after, e) = inl cc
  Holds-cases x xs v (b ∷ before, after, e) = inr (before, after, cc)

  pub Holds-front : (xs ys : List A) (v : A) → Holds xs v → Holds (xs ++ ys) v
  Holds-front xs ys v (before, after, e) =
      (before, after ++ ys, rw e (append_assoc before (v ∷ after) ys))

  pub Holds-back : (xs ys : List A) (v : A) → Holds ys v → Holds (xs ++ ys) v
  Holds-back [] ys v h = h
  Holds-back (x ∷ xs) ys v h = Holds-cons x (xs ++ ys) v (Holds-back xs ys v h)

  pub Holds-filter :
      (p : A → Bool) (xs : List A) (v : A) → p v ≡ true → Holds xs v → Holds (filter p xs) v
  Holds-filter p xs v e ([], after, h) = rw (h, e) ([], filter p after, refl)
  Holds-filter p [] v e (b ∷ before, after, h) = cc
  Holds-filter p (x ∷ xs) v e (b ∷ before, after, h) =
      let rest = Holds-filter p xs v e (before, after, cc) in
      elim (Bool-cases (p x)) [
        | inl k ↦ rw k (Holds-cons x (filter p xs) v rest)
        | inr k ↦ rw k rest
      ]

  pub All-Holds {κ} : (P : A → Type κ) (xs : List A) (v : A) → All P xs → Holds xs v → P v
  All-Holds P [] v h ([], after, e) = cc
  All-Holds P [] v h (b ∷ before, after, e) = cc
  All-Holds P (x ∷ xs) v (p, h) held = elim (Holds-cases x xs v held) [
    | inl e ↦ rw e p
    | inr later ↦ All-Holds P xs v h later
  ]

  pub Holds-All {κ} : (P : A → Type κ) (xs : List A) → ((v : A) → Holds xs v → P v) → All P xs
  Holds-All P [] h = tt
  Holds-All P (x ∷ xs) h =
      (h x (Holds-self x xs x refl), Holds-All P xs λ v held. h v (Holds-cons x xs v held))

  pub All-filter {κ} :
      (P : A → Type κ) (p : A → Bool) (xs : List A) → All P xs → All P (filter p xs)
  All-filter P p [] h = tt
  All-filter P p (x ∷ xs) (q, h) = elim (Bool-cases (p x)) [
    | inl k ↦ rw k (q, All-filter P p xs h)
    | inr k ↦ rw k (All-filter P p xs h)
  ]

pub Holds-map {ℓ κ} :
    {A : Type ℓ} {B : Type κ} (f : A → B) (xs : List A) (v : A)
    → Holds xs v
    → Holds (map f xs) (f v)
Holds-map f [] v ([], after, e) = cc
Holds-map f [] v (b ∷ before, after, e) = cc
Holds-map f (x ∷ xs) v held = elim (Holds-cases x xs v held) [
  | inl e ↦ Holds-self (f x) (map f xs) (f v) (ap f e)
  | inr later ↦ Holds-cons (f x) (map f xs) (f v) (Holds-map f xs v later)
]

module _ {ℓ} {A : Type ℓ} (p : A → Bool) where
  pub Holds-filtered : (xs : List A) (v : A) → Holds (filter p xs) v → Holds xs v × (p v ≡ true)
  Holds-filtered [] v ([], after, e) = cc
  Holds-filtered [] v (b ∷ before, after, e) = cc
  Holds-filtered (x ∷ xs) v held = elim (Bool-cases (p x)) [
    | inl k ↦ elim (Holds-cases x (filter p xs) v (rw k at held)) [
      | inl e ↦ (Holds-self x xs v e, rw e k)
      | inr later ↦ let (h, q) = Holds-filtered xs v later in (Holds-cons x xs v h, q)
    ]
    | inr k ↦ let (h, q) = Holds-filtered xs v (rw k at held) in (Holds-cons x xs v h, q)
  ]

  pub any_sound : (xs : List A) → any p xs ≡ true → (v : A) × Holds xs v × (p v ≡ true)
  any_sound [] h = cc
  any_sound (x ∷ xs) h = elim (Bool-cases (p x)) [
    | inl k ↦ (x, Holds-self x xs x refl, k)
    | inr k ↦ let (v, held, q) = any_sound xs (rw k at h) in (v, Holds-cons x xs v held, q)
  ]

  pub any_complete : (xs : List A) (v : A) → Holds xs v → p v ≡ true → any p xs ≡ true
  any_complete [] v ([], after, e) q = cc
  any_complete [] v (b ∷ before, after, e) q = cc
  any_complete (x ∷ xs) v held q = elim (Holds-cases x xs v held) [
    | inl e ↦ rw (← e, q) refl
    | inr later ↦ elim (Bool-cases (p x)) [
      | inl k ↦ rw k refl
      | inr k ↦ rw k (any_complete xs v later q)
    ]
  ]
