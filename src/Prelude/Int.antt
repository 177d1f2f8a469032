-- ===== src/Prelude/Int.antt =====
-- Go's `int64`, and `strconv.ParseInt` to base 10.
use Prim.Native.Nat.{ℕ, zero, suc, ◌+◌, ◌-◌, ◌*◌, ◌/◌, ◌%◌, ◌^◌, ◌≤◌, ◌<◌}
use mathlib.Core.Path.{◌≡◌, refl, ◌∙◌, ap, sym}
use mathlib.Core.Bool.{Bool, true, false, ◌&&◌}
use mathlib.Core.List.{List, [], ◌∷◌}
use mathlib.Core.Option.{Option, none, some}
use mathlib.Core.Logic.{inl, inr}
use native.Mathlib.Omega.{arith}
use native.Mathlib.Nat.{
  one-mul, pow-zero, pow-succ', mul_assoc, mul-le-mul_right, pow-le-pow_right, lt_of_lt_of_le,
}
use project_h_server.Prelude.Tests.{if◌then◌else◌, ltb, leb, ◌==◌, Bool-cases}
use project_h_server.Prelude.Lists.{length}
use project_h_server.Prelude.Decimal.{digits, decimal}

-- `negsuc n` is -(n + 1).
pub data ℤ : Type 0 where
  pos negsuc : ℕ → ℤ

-- The number that the digits add to `acc`.
unfoldable pub parse_digits : ℕ → List ℕ → Option ℕ
parse_digits acc [] = some acc
parse_digits acc (c ∷ s) =
    let rest = parse_digits (acc * 10 + (c - 48)) s in if leb 48 c && leb c 57 then rest else none

-- The digits behind a sign; none, and a number out of range, are errors.
unfoldable pub parse_magnitude : Bool → List ℕ → Option ℤ
unfolding parse_digits
parse_magnitude negative [] = none
parse_magnitude negative (c ∷ s) = elim (parse_digits 0 (c ∷ s)) [
  | none ↦ none
  | some zero ↦ some (pos 0)
  | some (suc n) ↦
      if negative
      then (if ltb n (2 ^ 63) then some (negsuc n) else none)
      else (if ltb (suc n) (2 ^ 63) then some (pos (suc n)) else none)
]

unfoldable pub parse_int : List ℕ → Option ℤ
unfolding parse_magnitude
parse_int [] = none
parse_int (c ∷ s) =
    if c == 45
    then parse_magnitude true s
    else if c == 43
    then parse_magnitude false s
    else parse_magnitude false (c ∷ s)

parse_digits-digits :
    (fuel n : ℕ) (t : List ℕ) → n < fuel → parse_digits 0 (digits fuel n t) ≡ parse_digits n t
unfolding parse_digits digits
parse_digits-digits zero n t h = absurd (omega (arith, h))
parse_digits-digits (suc fuel) n t h =
    ground (arith, parse_digits-digits fuel (n / 10) ((48 + n % 10) ∷ t))

-- A printed number begins with a digit.
digits_head :
    (fuel n : ℕ) (t : List ℕ)
    → n < fuel
    → (c : ℕ) × (s : List ℕ) × (digits fuel n t ≡ c ∷ s) × (48 ≤ c) × (c ≤ 57)
unfolding digits
digits_head zero n t h = absurd (omega (arith, h))
digits_head (suc fuel) n t h = elim (Bool-cases (ltb n 10)) [
  | inl e ↦ (48 + n, t, rw (digits, e) refl, omega arith, ground (arith, e))
  | inr e ↦
      let (c, s, k, l, u) = digits_head fuel (n / 10) ((48 + n % 10) ∷ t) (ground (arith, e)) in
      (c, s, rw (digits, e) k, l, u)
]

parse_magnitude-digits :
    (n c : ℕ) (s : List ℕ)
    → n < 2 ^ 63
    → 48 ≤ c
    → c ≤ 57
    → parse_digits 0 (c ∷ s) ≡ some n
    → parse_int (c ∷ s) ≡ some (pos n)
unfolding parse_int parse_magnitude
parse_magnitude-digits zero c s h l u e = ground (arith, e)
parse_magnitude-digits (suc n) c s h l u e = ground (arith, e)

-- A number that fits in an `int64` is read back as it was printed.
pub parse_int-decimal : (n : ℕ) → n < 2 ^ 63 → parse_int (decimal n) ≡ some (pos n)
unfolding decimal parse_digits
parse_int-decimal n h =
    let (c, s, k, l, u) = digits_head (suc n) n [] (omega arith) in
    let value : parse_digits 0 (c ∷ s) ≡ some n =
      ap (parse_digits 0) (sym k) ∙ parse_digits-digits (suc n) n [] (omega arith) in
    ap parse_int k ∙ parse_magnitude-digits n c s h l u value

parse_digits_bound :
    (acc : ℕ) (s : List ℕ) (n : ℕ) → parse_digits acc s ≡ some n → n < (acc + 1) * 10 ^ length s
unfolding parse_digits
parse_digits_bound acc [] n h = ground (arith, pow-zero 10, h)
parse_digits_bound acc (c ∷ s) n h = elim (Bool-cases (leb 48 c && leb c 57)) [
  | inr e ↦ absurd (ground (arith, e))
  | inl e ↦
      let on : parse_digits (acc * 10 + (c - 48)) s ≡ some n = rw (parse_digits, e) at h in
      let digit : acc * 10 + (c - 48) + 1 ≤ (acc + 1) * 10 = ground (arith, e) in
      let step : (acc + 1) * 10 * 10 ^ length s ≡ (acc + 1) * 10 ^ suc (length s) =
        mul_assoc (acc + 1) 10 (10 ^ length s)
        ∙ ap (λ p. (acc + 1) * p) (sym (pow-succ' 10 (length s))) in
      let ih = parse_digits_bound (acc * 10 + (c - 48)) s n on in
      let wider = mul-le-mul_right (10 ^ length s) digit in rw (← step) (lt_of_lt_of_le ih wider)
]

parse_magnitude-some :
    (negative : Bool) (o : Option ℕ) (c : ℕ) (s : List ℕ) (n : ℕ)
    → parse_digits 0 (c ∷ s) ≡ o
    → parse_magnitude negative (c ∷ s) ≡ some (pos n)
    → parse_digits 0 (c ∷ s) ≡ some n
unfolding parse_magnitude
parse_magnitude-some negative none c s n e h = absurd (ground (arith, e, h))
parse_magnitude-some negative (some zero) c s n e h = ground (arith, e, h)
parse_magnitude-some true (some (suc m)) c s n e h = absurd (ground (arith, e, h))
parse_magnitude-some false (some (suc m)) c s n e h = ground (arith, e, h)

parse_magnitude_bound :
    (negative : Bool) (s : List ℕ) (n : ℕ)
    → parse_magnitude negative s ≡ some (pos n)
    → n < 10 ^ length s
unfolding parse_magnitude
parse_magnitude_bound negative [] n h = absurd (ground (arith, h))
parse_magnitude_bound negative (c ∷ s) n h = omega (
  arith,
  parse_digits_bound 0 (c ∷ s) n
      (parse_magnitude-some negative (parse_digits 0 (c ∷ s)) c s n refl h),
  one-mul (10 ^ length (c ∷ s)),
)

-- A number that is read from some digits is less than ten to the power of their number.
pub parse_int_bound : (s : List ℕ) (n : ℕ) → parse_int s ≡ some (pos n) → n < 10 ^ length s
unfolding parse_int
parse_int_bound [] n h = absurd (ground (arith, h))
parse_int_bound (c ∷ s) n h =
    let shorter : 10 ^ length s ≤ 10 ^ length (c ∷ s) =
      pow-le-pow_right (omega arith) (omega arith) in
    elim (Bool-cases (c == 45)) [
      | inl e ↦ lt_of_lt_of_le (parse_magnitude_bound true s n (rw (parse_int, e) at h)) shorter
      | inr e ↦ elim (Bool-cases (c == 43)) [
        | inl f ↦
            lt_of_lt_of_le (parse_magnitude_bound false s n (rw (parse_int, e, f) at h)) shorter
        | inr f ↦ parse_magnitude_bound false (c ∷ s) n (rw (parse_int, e, f) at h)
      ]
    ]
