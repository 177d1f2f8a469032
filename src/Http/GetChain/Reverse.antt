-- ===== src/Http/GetChain/Reverse.antt =====
-- Swapping the ends of a list, from outside in, reverses it.
use mathlib.Core.List.{append-nil, append_assoc, reverse, reverse-cons, reverse-append}
use project_h_server.Prelude.{
  ℕ, suc, zero, ◌+◌, ◌-◌, ◌/◌, ◌≡◌, refl, sym, ap, ◌∙◌, List, [], ◌∷◌, ◌++◌, some, arith, length,
  get_elem?, set, length-append, set-append,
}
use project_h_server.Http.GetChain.{swap, swap_loop, reverse_in_place}

module _ {ℓ} {A : Type ℓ} where
  get_elem?-append :
      (xs : List A) (y : A) (ys : List A) → get_elem? (xs ++ y ∷ ys) (length xs) ≡ some y
  get_elem?-append [] y ys = refl
  get_elem?-append (x ∷ xs) y ys = get_elem?-append xs y ys

  last_of : (x : A) (xs : List A) → (ms : List A) × (b : A) × (x ∷ xs ≡ ms ++ b ∷ [])
  last_of x [] = ([], x, refl)
  last_of x (y ∷ xs) = let (ms, b, e) = last_of y xs in (x ∷ ms, b, ap (◌∷◌ x) e)

  -- The ends of a list of two items or more.
  ends_of :
      (n : ℕ) (xs : List A)
      → length xs ≡ suc (suc n)
      → (a : A) × (ms : List A) × (b : A) × (xs ≡ a ∷ (ms ++ b ∷ []))
  ends_of n [] h = absurd (omega (arith, h))
  ends_of n (a ∷ []) h = absurd (omega (arith, h))
  ends_of n (a ∷ x ∷ xs) h = let (ms, b, e) = last_of x xs in (a, ms, b, ap (◌∷◌ a) e)

  -- The index behind `ps`, an item and `ms`.
  abbrev far : List A → List A → ℕ
  far [] ms = suc (length ms)
  far (p ∷ ps) ms = suc (far ps ms)

  far_lem : (ps ms : List A) → far ps ms ≡ length ps + suc (length ms)
  far_lem [] ms = omega arith
  far_lem (p ∷ ps) ms = omega (arith, far_lem ps ms)

  get_elem?-far :
      (ps : List A) (a : A) (ms : List A) (b : A) (ss : List A)
      → get_elem? (ps ++ a ∷ (ms ++ b ∷ ss)) (far ps ms) ≡ some b
  get_elem?-far [] a ms b ss = get_elem?-append ms b ss
  get_elem?-far (p ∷ ps) a ms b ss = get_elem?-far ps a ms b ss

  set-far :
      (ps : List A) (a : A) (ms : List A) (b c : A) (ss : List A)
      → set (ps ++ a ∷ (ms ++ b ∷ ss)) (far ps ms) c ≡ ps ++ a ∷ (ms ++ c ∷ ss)
  set-far [] a ms b c ss = ap (◌∷◌ a) (set-append ms b c ss)
  set-far (p ∷ ps) a ms b c ss = ap (◌∷◌ p) (set-far ps a ms b c ss)

  length-ends :
      (ps : List A) (a : A) (ms : List A) (b : A) (ss : List A)
      → length (ps ++ a ∷ (ms ++ b ∷ ss)) ≡ length ps + (length ms + length ss + 2)
  length-ends ps a ms b ss =
      omega (arith, length-append ps (a ∷ (ms ++ b ∷ ss)), length-append ms (b ∷ ss))

  swap-far :
      (ps : List A) (a : A) (ms : List A) (b : A) (ss : List A)
      → swap (ps ++ a ∷ (ms ++ b ∷ ss)) (length ps) (far ps ms) ≡ ps ++ b ∷ (ms ++ a ∷ ss)
  unfolding swap
  swap-far ps a ms b ss =
      rw (swap, get_elem?-append ps a (ms ++ b ∷ ss), get_elem?-far ps a ms b ss)
        (ap (λ l. set l (far ps ms) a) (set-append ps a b (ms ++ b ∷ ss)) ∙ set-far ps b ms b a ss)

  swap_ends :
      (ps : List A) (a : A) (ms : List A) (b : A) (ss : List A)
      → length ss ≡ length ps
      → (let xs = ps ++ a ∷ (ms ++ b ∷ ss) in
          swap xs (length ps) (length xs - length ps - 1) ≡ ps ++ b ∷ (ms ++ a ∷ ss))
  swap_ends ps a ms b ss h =
      let index : length (ps ++ a ∷ (ms ++ b ∷ ss)) - length ps - 1 ≡ far ps ms =
        omega (arith, length-ends ps a ms b ss, far_lem ps ms, h) in
      ap (swap (ps ++ a ∷ (ms ++ b ∷ ss)) (length ps)) index ∙ swap-far ps a ms b ss

  reverse-ends :
      (a : A) (ms : List A) (b : A) (ss : List A)
      → reverse (a ∷ (ms ++ b ∷ [])) ++ ss ≡ b ∷ (reverse ms ++ a ∷ ss)
  reverse-ends a ms b ss =
      ap (λ l. l ++ ss)
        (reverse-cons a (ms ++ b ∷ []) ∙ ap (λ l. l ++ a ∷ []) (reverse-append ms (b ∷ [])))
      ∙ append_assoc (b ∷ reverse ms) (a ∷ []) ss

  -- The loop on the part `xs` between the parts that are done.
  swap_loop-reverse :
      (n : ℕ) (ps xs ss : List A)
      → length xs / 2 ≡ n
      → length ss ≡ length ps
      → swap_loop n (length ps) (ps ++ (xs ++ ss)) ≡ ps ++ (reverse xs ++ ss)
  unfolding swap_loop
  swap_loop-reverse zero ps [] ss h k = refl
  swap_loop-reverse zero ps (x ∷ []) ss h k = refl
  swap_loop-reverse zero ps (x ∷ y ∷ xs) ss h k = absurd (omega (arith, h))
  swap_loop-reverse (suc n) ps xs ss h k =
      let (a, ms, b, e) = ends_of (length xs - 2) xs (omega (arith, h)) in
      let length-ps : length (ps ++ b ∷ []) ≡ suc (length ps) =
        omega (arith, length-append ps (b ∷ [])) in
      let length-xs : length xs ≡ suc (suc (length ms)) =
        ap length e ∙ omega (arith, length-append ms (b ∷ [])) in
      ap (λ l. swap_loop (suc n) (length ps) (ps ++ l))
        (ap (λ l. l ++ ss) e ∙ ap (◌∷◌ a) (append_assoc ms (b ∷ []) ss))
      ∙ ap (swap_loop n (suc (length ps))) (swap_ends ps a ms b ss k)
      ∙ ap (λ i. swap_loop n i (ps ++ b ∷ (ms ++ a ∷ ss))) (sym length-ps)
      ∙ ap (swap_loop n (length (ps ++ b ∷ []))) (sym (append_assoc ps (b ∷ []) (ms ++ a ∷ ss)))
      ∙ swap_loop-reverse n (ps ++ b ∷ []) ms (a ∷ ss) (omega (arith, length-xs, h))
          (omega (arith, length-ps, k))
      ∙ append_assoc ps (b ∷ []) (reverse ms ++ a ∷ ss)
      ∙ ap (◌++◌ ps) (sym (reverse-ends a ms b ss) ∙ ap (λ l. reverse l ++ ss) (sym e))

  -- The loop that swaps the ends of a list until its middle reverses the list.
  pub reverse_in_place_lem : (xs : List A) → reverse_in_place xs ≡ reverse xs
  unfolding reverse_in_place
  reverse_in_place_lem xs =
      ap (swap_loop (length xs / 2) 0) (sym (append-nil xs))
      ∙ swap_loop-reverse (length xs / 2) [] xs [] refl refl
      ∙ append-nil (reverse xs)
