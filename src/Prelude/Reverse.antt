-- ===== src/Prelude/Reverse.antt =====
-- Lists that are reversed: their length, their images, and what some item has.

use mathlib.Core.Path.{◌≡◌, refl, ap, ◌∙◌}
use mathlib.Core.Logic.{inl, inr}
use mathlib.Core.List.{List, [], ◌∷◌, ◌++◌, map, map-append, reverse, reverse-cons}
use native.Mathlib.Omega.{arith}
use project_h_server.Prelude.Lists.{length, length-append, Any}

module _ {ℓ} {A : Type ℓ} where
  pub length-reverse : (xs : List A) → length (reverse xs) ≡ length xs
  length-reverse [] = refl
  length-reverse (x ∷ xs) =
      rw (reverse-cons x xs) (omega (arith, length-append (reverse xs) (x ∷ []), length-reverse xs))

pub map-reverse : {A B : Type 0} (f : A → B) (xs : List A) → map f (reverse xs) ≡ reverse (map f xs)
map-reverse f [] = refl
map-reverse f (x ∷ xs) =
    ap (map f) (reverse-cons x xs)
    ∙ map-append f (reverse xs) (x ∷ [])
    ∙ rw (map-reverse f xs, reverse-cons (f x) (map f xs)) refl

module _ {A : Type 0} (P : A → Type 0) where
  Any-left : (xs ys : List A) → Any P xs → Any P (xs ++ ys)
  Any-left [] ys h = absurd h
  Any-left (x ∷ xs) ys (inl h) = inl h
  Any-left (x ∷ xs) ys (inr h) = inr (Any-left xs ys h)

  Any-right : (xs ys : List A) → Any P ys → Any P (xs ++ ys)
  Any-right [] ys h = h
  Any-right (x ∷ xs) ys h = inr (Any-right xs ys h)

  pub Any-reverse : (xs : List A) → Any P xs → Any P (reverse xs)
  Any-reverse [] h = h
  Any-reverse (x ∷ xs) (inl h) = rw (reverse-cons x xs) (Any-right (reverse xs) (x ∷ []) (inl h))
  Any-reverse (x ∷ xs) (inr h) =
      rw (reverse-cons x xs) (Any-left (reverse xs) (x ∷ []) (Any-reverse xs h))

pub Any-map :
    {A B : Type 0} (P : A → Type 0) (Q : B → Type 0) (f : A → B)
    → ((x : A) → P x → Q (f x))
    → (xs : List A) → Any P xs
    → Any Q (map f xs)
Any-map P Q f h [] a = absurd a
Any-map P Q f h (x ∷ xs) (inl a) = inl (h x a)
Any-map P Q f h (x ∷ xs) (inr a) = inr (Any-map P Q f h xs a)
