-- ===== src/Accounts/Base64.antt =====
-- `base64.StdEncoding.DecodeString`: with padding, and blind to line ends.
use project_h_server.Prelude.{
  ℕ, ◌+◌, ◌-◌, ◌*◌, ◌/◌, ◌%◌, ◌≡◌, ◌≤◌, [], ◌∷◌, Option, none, some, ◌==◌, ◌&&◌, ◌||◌, leb,
  if◌then◌else◌, if-either, Bytes, length, arith, ◌>>=◌, >>=-eq-some, ap, inl, inr, Bool-cases,
}

-- The value of a letter of the alphabet.
unfoldable pub sextet : ℕ → Option ℕ
sextet c =
    if leb 65 c && leb c 90
    then some (c - 65)
    else if leb 97 c && leb c 122
    then some (c - 71)
    else if leb 48 c && leb c 57
    then some (c + 4)
    else if c == 43
    then some 62
    else if c == 47
    then some 63
    else none

unfoldable pub drop_line_ends : Bytes → Bytes
drop_line_ends [] = []
drop_line_ends (c ∷ s) =
    let rest = drop_line_ends s in if c == 10 || c == 13 then rest else c ∷ rest

-- The last group of four letters, with its padding.
unfoldable pub last_group : ℕ → ℕ → ℕ → ℕ → Option Bytes
unfolding sextet
last_group a b c d =
    if c == 61 && d == 61
    then (do x ← sextet a; y ← sextet b; some ((x * 4 + y / 16) ∷ []))
    else if d == 61
    then (do
      x ← sextet a
      y ← sextet b
      z ← sextet c
      some ((x * 4 + y / 16) ∷ (y % 16 * 16 + z / 4) ∷ []))
    else none

unfoldable pub group : ℕ → ℕ → ℕ → ℕ → Bytes → Option Bytes
unfolding sextet
group a b c d rest = do
  x ← sextet a
  y ← sextet b
  z ← sextet c
  v ← sextet d
  some ((x * 4 + y / 16) ∷ (y % 16 * 16 + z / 4) ∷ (z % 4 * 64 + v) ∷ rest)

unfoldable pub decode_groups : Bytes → Option Bytes
unfolding last_group group
decode_groups [] = some []
decode_groups (a ∷ b ∷ c ∷ d ∷ []) = if d == 61 then last_group a b c d else group a b c d []
decode_groups (a ∷ b ∷ c ∷ d ∷ s) = do rest ← decode_groups s; group a b c d rest
decode_groups s = none

unfoldable pub decode_string : Bytes → Option Bytes
unfolding decode_groups drop_line_ends
decode_string s = decode_groups (drop_line_ends s)

length-drop_line_ends : (s : Bytes) → length (drop_line_ends s) ≤ length s
unfolding drop_line_ends
length-drop_line_ends [] = omega arith
length-drop_line_ends (c ∷ s) = ground (arith, length-drop_line_ends s)

abbrev Option-length : Option Bytes → ℕ
Option-length none = 0
Option-length (some t) = length t

length-last_group : (a b c d : ℕ) (t : Bytes) → last_group a b c d ≡ some t → length t ≤ 2
unfolding last_group
length-last_group a b c d t h = elim (Bool-cases (c == 61 && d == 61)) [
  | inl e ↦
      let (x, ex, hx) = >>=-eq-some (sextet a) _ (rw (last_group, e) at h) in
      let (y, ey, hy) = >>=-eq-some (sextet b) _ hx in omega (arith, ap (Option-length) hy)
  | inr e ↦ elim (Bool-cases (d == 61)) [
    | inl f ↦
        let (x, ex, hx) = >>=-eq-some (sextet a) _ (rw (last_group, e, f) at h) in
        let (y, ey, hy) = >>=-eq-some (sextet b) _ hx in
        let (z, ez, hz) = >>=-eq-some (sextet c) _ hy in omega (arith, ap (Option-length) hz)
    | inr f ↦ absurd (ground (arith, e, f, h))
  ]
]

length-group :
    (a b c d : ℕ) (rest t : Bytes) → group a b c d rest ≡ some t → length t ≡ length rest + 3
unfolding group
length-group a b c d rest t h =
    let (x, ex, hx) = >>=-eq-some (sextet a) _ h in
    let (y, ey, hy) = >>=-eq-some (sextet b) _ hx in
    let (z, ez, hz) = >>=-eq-some (sextet c) _ hy in
    let (v, ev, hv) = >>=-eq-some (sextet d) _ hz in omega (arith, ap (Option-length) hv)

length-decode_groups : (s t : Bytes) → decode_groups s ≡ some t → length t ≤ length s
unfolding decode_groups
length-decode_groups [] t h = omega (arith, ap (Option-length) h)
length-decode_groups (a ∷ []) t h = absurd (ground (arith, h))
length-decode_groups (a ∷ b ∷ []) t h = absurd (ground (arith, h))
length-decode_groups (a ∷ b ∷ c ∷ []) t h = absurd (ground (arith, h))
length-decode_groups (a ∷ b ∷ c ∷ d ∷ []) t h = elim (if-either (d == 61) _ _ h) [
  | inl e ↦ omega (arith, length-last_group a b c d t e)
  | inr e ↦ omega (arith, length-group a b c d [] t e)
]
length-decode_groups (a ∷ b ∷ c ∷ d ∷ e ∷ s) t h =
    let (rest, er, hr) = >>=-eq-some (decode_groups (e ∷ s)) _ h in
    omega (arith, length-decode_groups (e ∷ s) rest er, length-group a b c d rest t hr)

-- Decoding makes no text longer.
pub length-decode_string : (s t : Bytes) → decode_string s ≡ some t → length t ≤ length s
unfolding decode_string
length-decode_string s t h =
    omega (arith, length-decode_groups (drop_line_ends s) t h, length-drop_line_ends s)
