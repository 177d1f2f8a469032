-- ===== src/Prelude/Decimal.antt =====
-- `strconv.FormatUint` and `FormatInt` to base 10, on numbers that are not negative.
use Prim.Native.Nat.{ℕ, zero, suc, ◌+◌, ◌/◌, ◌%◌, ◌≤◌}
use mathlib.Core.Path.{◌≡◌, refl}
use mathlib.Core.Logic.{◌≢◌}
use mathlib.Core.List.{List, [], ◌∷◌, ◌++◌}
use native.Mathlib.Omega.{arith}
use project_h_server.Prelude.Tests.{if◌then◌else◌, ltb}

-- The digits of `n` before `tail`, on fuel.
unfoldable pub digits : ℕ → ℕ → List ℕ → List ℕ
digits zero n tail = tail
digits (suc fuel) n tail =
    let more = digits fuel (n / 10) ((48 + n % 10) ∷ tail) in
    if ltb n 10 then (48 + n) ∷ tail else more

-- A number is less than ten to the power of itself plus one, so this fuel suffices.
unfoldable pub decimal : ℕ → List ℕ
unfolding digits
decimal n = digits (suc n) n []

digits-append : (fuel n : ℕ) (s t : List ℕ) → digits fuel n (s ++ t) ≡ digits fuel n s ++ t
unfolding digits
digits-append zero n s t = refl
digits-append (suc fuel) n s t = ground (arith, digits-append fuel (n / 10) ((48 + n % 10) ∷ s) t)

digits-ne-nil : (fuel n c : ℕ) (t : List ℕ) → digits fuel n (c ∷ t) ≢ []
unfolding digits
digits-ne-nil zero n c t = λ e. cc
digits-ne-nil (suc fuel) n c t = ground (arith, digits-ne-nil fuel (n / 10) (48 + n % 10) (c ∷ t))

-- Every number has a digit.
pub decimal-ne-nil : (n : ℕ) → decimal n ≢ []
unfolding decimal
decimal-ne-nil n = ground (arith, digits-ne-nil n (n / 10) (48 + n % 10) [])

-- The last byte of a text, 0 for the empty one.
abbrev pub last_byte : List ℕ → ℕ
last_byte [] = 0
last_byte (c ∷ []) = c
last_byte (c ∷ d ∷ s) = last_byte (d ∷ s)

pub last_byte-append :
    (s : List ℕ) (c : ℕ) (t : List ℕ) → last_byte (s ++ c ∷ t) ≡ last_byte (c ∷ t)
last_byte-append [] c t = refl
last_byte-append (a ∷ []) c t = refl
last_byte-append (a ∷ b ∷ s) c t = last_byte-append (b ∷ s) c t

last_byte-digits : (fuel n c : ℕ) → last_byte (digits fuel n (c ∷ [])) ≡ c
last_byte-digits fuel n c =
    rw (digits-append fuel n [] (c ∷ [])) (last_byte-append (digits fuel n []) c [])

-- A printed number ends in a digit.
pub last_byte-decimal : (n : ℕ) → (48 ≤ last_byte (decimal n)) × (last_byte (decimal n) ≤ 57)
unfolding decimal digits
last_byte-decimal n = ground (arith, last_byte-digits n (n / 10) (48 + n % 10))

-- The same behind any other text.
pub last_byte-append-decimal :
    (s : List ℕ) (n : ℕ) → last_byte (s ++ decimal n) ≡ last_byte (decimal n)
last_byte-append-decimal s n = behind s (decimal n) (decimal-ne-nil n)
  where
    behind : (s t : List ℕ) → t ≢ [] → last_byte (s ++ t) ≡ last_byte t
    behind s [] h = absurd (h refl)
    behind s (c ∷ t) h = last_byte-append s c t
