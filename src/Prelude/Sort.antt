-- ===== src/Prelude/Sort.antt =====
-- Go's `sort.Slice` and `sort.SliceStable` with a comparison: insertion sort, which is stable. As
-- the order of a map's iteration is arbitrary, so is that of equal items of `sort.Slice` over it.
use mathlib.Core.Path.{◌≡◌}
use mathlib.Core.Bool.{Bool, true, false}
use mathlib.Core.List.{List, [], ◌∷◌, ◌++◌, Perm, reverse, reverse-cons}
use mathlib.Core.List.Perm
use mathlib.Core.Logic.{inl, inr}
use project_h_server.Prelude.Tests.{if◌then◌else◌, Bool-cases}
use project_h_server.Prelude.Lists.{All, All-append}

module _ {ℓ} {A : Type ℓ} (less : A → A → Bool) where
  unfoldable pub insert : A → List A → List A
  insert x [] = x ∷ []
  insert x (y ∷ ys) = if less y x then y ∷ insert x ys else x ∷ y ∷ ys

  unfoldable pub sort : List A → List A
  unfolding insert
  sort [] = []
  sort (x ∷ xs) = insert x (sort xs)

  -- No later item is less than an earlier one.
  abbrev pub IsSorted : List A → Type 0
  IsSorted [] = Unit
  IsSorted (x ∷ xs) = All (λ y. less y x ≡ false) xs × IsSorted xs

-- A comparison that `sort` may be given.
pub record StrictWeak {ℓ} {A : Type ℓ} (less : A → A → Bool) : Type ℓ where
  pub asym : (x y : A) → less x y ≡ true → less y x ≡ false
  pub trans : (x y z : A) → less z y ≡ false → less y x ≡ false → less z x ≡ false

module _ {ℓ} {A : Type ℓ} (less : A → A → Bool) where
  insert-perm : (x : A) (ys : List A) → Perm (insert less x ys) (x ∷ ys)
  unfolding insert
  insert-perm x [] = Perm.refl (x ∷ [])
  insert-perm x (y ∷ ys) = elim (Bool-cases (less y x)) [
    | inl e ↦ rw e (Perm.trans (Perm.cons y (insert-perm x ys)) (Perm.swap x y ys))
    | inr e ↦ rw e (Perm.refl (x ∷ y ∷ ys))
  ]

  pub sort-perm : (xs : List A) → Perm (sort less xs) xs
  unfolding sort
  sort-perm [] = Perm.refl []
  sort-perm (x ∷ xs) = Perm.trans (insert-perm x (sort less xs)) (Perm.cons x (sort-perm xs))

  insert-All {κ} :
      (P : A → Type κ) (x : A) (ys : List A) → P x → All P ys → All P (insert less x ys)
  unfolding insert
  insert-All P x [] p h = (p, tt)
  insert-All P x (y ∷ ys) p h = elim (Bool-cases (less y x)) [
    | inl e ↦ rw e (h.0, insert-All P x ys p h.1)
    | inr e ↦ rw e (p, h)
  ]

  pub sort-All {κ} : (P : A → Type κ) (xs : List A) → All P xs → All P (sort less xs)
  unfolding sort
  sort-All P [] h = tt
  sort-All P (x ∷ xs) h = insert-All P x (sort less xs) h.0 (sort-All P xs h.1)

  module _ (w : StrictWeak less) where
    above :
        (x y : A) (ys : List A)
        → less y x ≡ false
        → All (λ z. less z y ≡ false) ys
        → All (λ z. less z x ≡ false) ys
    above x y [] e h = tt
    above x y (z ∷ ys) e h = (w.trans x y z h.0 e, above x y ys e h.1)

    insert-IsSorted : (x : A) (ys : List A) → IsSorted less ys → IsSorted less (insert less x ys)
    unfolding insert
    insert-IsSorted x [] s = (tt, tt)
    insert-IsSorted x (y ∷ ys) s = elim (Bool-cases (less y x)) [
      | inl e ↦
          rw e
            (insert-All (λ z. less z y ≡ false) x ys (w.asym y x e) s.0, insert-IsSorted x ys s.1)
      | inr e ↦ rw e ((e, above x y ys e s.0), s)
    ]

    pub sort-IsSorted : (xs : List A) → IsSorted less (sort less xs)
    unfolding sort
    sort-IsSorted [] = tt
    sort-IsSorted (x ∷ xs) = insert-IsSorted x (sort less xs) (sort-IsSorted xs)

module _ {ℓ} {A : Type ℓ} where
  pub All-map {κ μ} :
      (P : A → Type κ) (Q : A → Type μ)
      → ((x : A) → P x → Q x)
      → (xs : List A) → All P xs
      → All Q xs
  All-map P Q f [] h = tt
  All-map P Q f (x ∷ xs) h = (f x h.0, All-map P Q f xs h.1)

  pub All-reverse {κ} : (P : A → Type κ) (xs : List A) → All P xs → All P (reverse xs)
  All-reverse P [] h = tt
  All-reverse P (x ∷ xs) h =
      rw (reverse-cons x xs) (All-append P (reverse xs) (x ∷ []) (All-reverse P xs h.1) (h.0, tt))

  -- What is put behind a sorted list is not less than its items.
  pub IsSorted-append :
      (less : A → A → Bool) (xs ys : List A)
      → IsSorted less xs
      → IsSorted less ys
      → All (λ x. All (λ y. less y x ≡ false) ys) xs
      → IsSorted less (xs ++ ys)
  IsSorted-append less [] ys hx hy h = hy
  IsSorted-append less (x ∷ xs) ys hx hy h =
      (All-append (λ y. less y x ≡ false) xs ys hx.0 h.0, IsSorted-append less xs ys hx.1 hy h.1)

  -- A list sorted the other way round is sorted backwards.
  pub IsSorted-reverse :
      (less : A → A → Bool) (xs : List A)
      → IsSorted (λ x y. less y x) xs
      → IsSorted less (reverse xs)
  IsSorted-reverse less [] h = tt
  IsSorted-reverse less (x ∷ xs) h = rw (reverse-cons x xs) (
      IsSorted-append less (reverse xs) (x ∷ []) (IsSorted-reverse less xs h.1) (tt, tt)
        (All-reverse (λ y. (less x y ≡ false) × Unit) xs
          (All-map (λ y. less x y ≡ false) (λ y. (less x y ≡ false) × Unit) (λ y e. (e, tt)) xs
            h.0)))
