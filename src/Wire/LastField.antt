-- ===== src/Wire/LastField.antt =====
-- `byte_to_params_and_payload` with no payload: the last parameter is all that is left.
use mathlib.Core.List.{append-nil, append_assoc}
use native.Mathlib.Decide.{ℕ_discrete}
use project_h_server.Prelude.{
  ℕ, suc, zero, ◌<◌, ◌≡◌, refl, ◌∙◌, ◌≢◌, false, List, [], ◌∷◌, ◌++◌, Option, none, some, Bytes,
  arith,
}
use project_h_server.Wire.{delim, scan, byte_to_params_and_payload, outcome}
use project_h_server.Wire.Fields.{
  cut, cut-append, NoDelim, cut-NoDelim, prepend, prepend-append, prepend-nil, At, At-drop, At-set,
  At-byte, At-delim, At-start, parse-scan, scan-delim,
}

-- `k` delimited fields and then the rest, which is not empty, as one more.
unfoldable pub take_last : ℕ → Bytes → Option (List Bytes × Bytes)
take_last zero [] = none
take_last zero (c ∷ b) = some ((c ∷ b) ∷ [], [])
take_last (suc k) b = elim (cut b) [
  | none ↦ none
  | some (f, r) ↦ elim (take_last k r) [ none ↦ none | some (fs, r') ↦ some (f ∷ fs, r') ]
]

take_last-NoDelim : (m : ℕ) (seg : Bytes) → NoDelim seg → take_last (suc m) (seg ++ []) ≡ none
unfolding take_last
take_last-NoDelim m seg h = rw (append-nil seg, cut-NoDelim seg h, take_last) refl

pub take_last-seg :
    (m : ℕ) (seg rest : Bytes)
    → NoDelim seg
    → take_last (suc m) (seg ++ delim ∷ rest) ≡ prepend (seg ∷ []) (take_last m rest)
unfolding take_last
take_last-seg m seg rest h = rw (cut-append seg rest h, take_last) (ground arith)

-- The last parameter takes the bytes that are left.
scan_rest :
    (b rest : Bytes) (k i n last c : ℕ) (param : List Bytes) (pre seg : Bytes) (fs : List Bytes)
    → At b (c ∷ rest) k i n last param pre seg fs zero
    → outcome (scan b k false (c ∷ rest) i n last param) ≡ some (fs ++ (seg ++ c ∷ rest) ∷ [], [])
unfolding scan outcome
scan_rest b rest k i n last c param pre seg fs a =
    ground (arith, At-set (seg ++ c ∷ rest) a, At-drop a)

scan_byte :
    (b rest : Bytes) (k i n last c : ℕ) (param : List Bytes) (pre seg : Bytes) (fs : List Bytes)
    (m : ℕ)
    → c ≢ delim
    → At b (c ∷ rest) k i n last param pre seg fs (suc m)
    → scan b k false (c ∷ rest) i n last param ≡ scan b k false rest (suc i) n last param
unfolding scan
scan_byte b rest k i n last c param pre seg fs m other a = ground arith

-- While an earlier parameter is read, the loop finds what `take_last` describes; at the last
-- parameter it stands at its first byte.
abbrev Starts : ℕ → Bytes → Type 0
Starts zero seg = seg ≡ []
Starts (suc m) seg = Unit

abbrev Scans : Bytes → Type 0
Scans rest =
    (b : Bytes) (k i n last : ℕ) (param : List Bytes) (pre seg : Bytes) (fs : List Bytes) (m : ℕ)
    → Starts m seg
    → At b rest k i n last param pre seg fs m
    → outcome (scan b k false rest i n last param) ≡ prepend fs (take_last m (seg ++ rest))

Starts-nil : (m : ℕ) → Starts m []
Starts-nil zero = refl
Starts-nil (suc m) = tt

next_field :
    {b rest : Bytes} {k i n last : ℕ} {param : List Bytes} {pre seg : Bytes} {fs : List Bytes}
    (m : ℕ)
    → Scans rest
    → At b (delim ∷ rest) k i n last param pre seg fs (suc m)
    → outcome (scan b k false (delim ∷ rest) i n last param)
      ≡ prepend fs (take_last (suc m) (seg ++ delim ∷ rest))
next_field {b} {rest} {k} {i} {n} {last} {param} {pre} {seg} {fs} m ih a =
    rw
      (
        scan-delim b rest k i n last param pre seg fs m false a,
        take_last-seg m seg rest a.clean,
        ← prepend-append fs (seg ∷ []) (take_last m rest),
      )
      (ih b k (suc i) (suc n) (suc i) _ _ [] (fs ++ seg ∷ []) m (Starts-nil m) (At-delim a))

scan-take_last :
    (rest b : Bytes) (k i n last : ℕ) (param : List Bytes) (pre seg : Bytes) (fs : List Bytes)
    (m : ℕ)
    → Starts m seg
    → At b rest k i n last param pre seg fs m
    → outcome (scan b k false rest i n last param) ≡ prepend fs (take_last m (seg ++ rest))
scan-take_last [] b k i n last param pre seg fs zero e a =
    rw e (unfold scan outcome take_last in refl)
scan-take_last [] b k i n last param pre seg fs (suc m) e a =
    rw (take_last-NoDelim m seg a.clean) (unfold scan outcome in refl)
scan-take_last (c ∷ rest) b k i n last param pre seg fs zero e a =
    scan_rest b rest k i n last c param pre seg fs a ∙ rw e (unfold take_last in refl)
scan-take_last (c ∷ rest) b k i n last param pre seg fs (suc m) e a = elim (ℕ_discrete c delim) [
  | yes hit ↦ rw hit (next_field m (scan-take_last rest) (rw hit at a))
  | no other ↦ rw (scan_byte b rest k i n last c param pre seg fs m other a) (
      rw (← append_assoc seg (c ∷ []) rest) (
        scan-take_last rest b k (suc i) n last param pre (seg ++ c ∷ []) fs (suc m) tt
          (At-byte a other)))
]

-- Asked for k + 1 < 256 parameters and no payload, byte_to_params_and_payload returns the k
-- delimited fields and all the bytes behind them as the last parameter, with no payload, and fails
-- exactly when there are fewer than k delimiters or nothing behind the last.
pub parse-take_last :
    (b : Bytes) (k : ℕ)
    → suc k < 256
    → outcome (byte_to_params_and_payload b (suc k) false) ≡ take_last k b
parse-take_last b k h =
    rw (parse-scan b k false) (
      scan-take_last b b (suc k) 0 0 0 _ [] [] [] k (Starts-nil k) (At-start b k h) ∙ prepend-nil _)
