-- ===== src/Wire/Fields.antt =====
-- What `byte_to_params_and_payload` computes, by an independent description: cut the body at its
-- delimiters, one parameter after the other.
use project_h_server.Prelude.{
  ℕ, suc, zero, ◌+◌, ◌-◌, ◌%◌, ◌<◌, ◌≡◌, refl, sym, ◌∙◌, ◌≢◌, Bool, true, List, [], ◌∷◌, ◌++◌,
  Option, none, some, Bytes, length, drop, set, replicate, arith, ◌==◌, if◌then◌else◌, All,
  All-append, drop-append, take-append, set-append, length-append,
}
use native.Mathlib.Decide.{ℕ_discrete}
use mathlib.Core.List.{append-nil, append_assoc}
use project_h_server.Wire.{delim, scan, close_params, byte_to_params_and_payload, outcome, slice}

-- The text before the first delimiter, and the text behind it.
unfoldable pub cut : Bytes → Option (Bytes × Bytes)
cut [] = none
cut (c ∷ b) =
    if c == delim
    then some ([], b)
    else elim (cut b) [ none ↦ none | some (f, r) ↦ some (c ∷ f, r) ]

-- `k` delimited fields, and what follows the last of them.
unfoldable pub take_fields : ℕ → Bytes → Option (List Bytes × Bytes)
take_fields zero b = some ([], b)
take_fields (suc k) b = elim (cut b) [
  | none ↦ none
  | some (f, r) ↦ elim (take_fields k r) [ none ↦ none | some (fs, r') ↦ some (f ∷ fs, r') ]
]

-- No byte of the text is the delimiter.
abbrev pub NoDelim : Bytes → Type 0
NoDelim = All (λ c. c ≢ delim)

pub cut-NoDelim : (s : Bytes) → NoDelim s → cut s ≡ none
unfolding cut
cut-NoDelim [] h = refl
cut-NoDelim (c ∷ s) h = ground (arith, cut-NoDelim s h.1)

pub cut-append : (s r : Bytes) → NoDelim s → cut (s ++ delim ∷ r) ≡ some (s, r)
unfolding cut
cut-append [] r h = refl
cut-append (c ∷ s) r h = ground (arith, cut-append s r h.1)

abbrev pub prepend : List Bytes → Option (List Bytes × Bytes) → Option (List Bytes × Bytes)
prepend fs none = none
prepend fs (some (gs, r)) = some (fs ++ gs, r)

-- Where the loop stands: `pre` is done with, `seg` is the parameter being read, `rest` is unread,
-- `fs` are the parameters found and `m + 1` are still wanted.
pub record At (b rest : Bytes) (k i n last : ℕ) (param : List Bytes) (pre seg : Bytes)
    (fs : List Bytes) (m : ℕ) : Type 0 where
  pub whole : b ≡ pre ++ (seg ++ rest)
  pub clean : NoDelim seg
  pub wanted : k ≡ n + suc m
  pub is_byte : k < 256
  pub found : n ≡ length fs
  pub start : last ≡ length pre
  pub here : i ≡ length pre + length seg
  pub slots : param ≡ fs ++ replicate (suc m) []

module _ {b rest : Bytes} {k i n last : ℕ} {param : List Bytes} {pre seg : Bytes} {fs : List Bytes}
    {m : ℕ} where
  pub At-drop : At b rest k i n last param pre seg fs m → drop last b ≡ seg ++ rest
  At-drop a = rw (a.start, a.whole) (drop-append pre (seg ++ rest))

  pub At-slice : At b rest k i n last param pre seg fs m → slice b last i ≡ seg
  At-slice a =
      let width : i - last ≡ length seg = omega (arith, a.here, a.start) in
      rw (At-drop a, width) (take-append seg rest)

  pub At-set :
      (x : Bytes)
      → At b rest k i n last param pre seg fs m
      → set param n x ≡ fs ++ x ∷ replicate m []
  At-set x a = rw (a.slots, a.found) (set-append fs [] x (replicate m []))

module _ {b rest : Bytes} {k i n last c m : ℕ} {param : List Bytes} {pre seg : Bytes}
    {fs : List Bytes} (a : At b (c ∷ rest) k i n last param pre seg fs m) where
  regroup : b ≡ (pre ++ (seg ++ c ∷ [])) ++ rest
  regroup = rw a.whole (simp append_assoc)

  width : length (pre ++ (seg ++ c ∷ [])) ≡ suc i
  width = omega (arith, a.here, length-append pre (seg ++ c ∷ []), length-append seg (c ∷ []))

  At-drop-suc : drop (suc i) b ≡ rest
  At-drop-suc = rw (regroup, ← width) (drop-append (pre ++ (seg ++ c ∷ [])) rest)

  pub At-byte : c ≢ delim → At b rest k (suc i) n last param pre (seg ++ c ∷ []) fs m
  At-byte other = record {
    whole = rw a.whole (simp append_assoc);
    clean = All-append (λ d. d ≢ delim) seg (c ∷ []) a.clean (other, tt);
    wanted = a.wanted;
    is_byte = a.is_byte;
    found = a.found;
    start = a.start;
    here = omega (arith, a.here, length-append seg (c ∷ []));
    slots = a.slots;
  }

module _ {b rest : Bytes} {k i n last m : ℕ} {param : List Bytes} {pre seg : Bytes}
    {fs : List Bytes} (a : At b (delim ∷ rest) k i n last param pre seg fs (suc m)) where
  pub At-delim :
      At b rest k
        (suc i)
        (suc n)
        (suc i)
        (set param n seg)
        (pre ++ (seg ++ delim ∷ []))
        []
        (fs ++ seg ∷ [])
        m
  At-delim = record {
    whole = regroup a;
    clean = tt;
    wanted = omega (arith, a.wanted);
    is_byte = a.is_byte;
    found = omega (arith, a.found, length-append fs (seg ∷ []));
    start = sym (width a);
    here = omega (arith, width a);
    slots = rw (At-set seg a) (simp append_assoc);
  }

pub take_fields-seg :
    (m : ℕ) (seg rest : Bytes)
    → NoDelim seg
    → take_fields (suc m) (seg ++ delim ∷ rest) ≡ prepend (seg ∷ []) (take_fields m rest)
unfolding take_fields
take_fields-seg m seg rest h = rw (cut-append seg rest h, take_fields) (ground arith)

pub prepend-append :
    (fs gs : List Bytes) (o : Option (List Bytes × Bytes))
    → prepend (fs ++ gs) o ≡ prepend fs (prepend gs o)
prepend-append fs gs none = refl
prepend-append fs gs (some (hs, r)) = rw append_assoc

take_fields-NoDelim : (m : ℕ) (seg : Bytes) → NoDelim seg → take_fields (suc m) (seg ++ []) ≡ none
unfolding take_fields
take_fields-NoDelim m seg h = rw (append-nil seg, cut-NoDelim seg h, take_fields) refl

-- The last parameter ends at a delimiter.
scan_last :
    (b rest : Bytes) (k i n last : ℕ) (param : List Bytes) (pre seg : Bytes) (fs : List Bytes)
    → At b (delim ∷ rest) k i n last param pre seg fs zero
    → outcome (scan b k true (delim ∷ rest) i n last param) ≡ some (fs ++ seg ∷ [], rest)
unfolding scan outcome close_params
scan_last b rest k i n last param pre seg fs a =
    ground (arith, At-set seg a, At-slice a, At-drop-suc a)

-- An earlier parameter ends at a delimiter.
pub scan-delim :
    (b rest : Bytes) (k i n last : ℕ) (param : List Bytes) (pre seg : Bytes) (fs : List Bytes)
    (m : ℕ) (payload_exists : Bool)
    → At b (delim ∷ rest) k i n last param pre seg fs (suc m)
    → scan b k payload_exists (delim ∷ rest) i n last param
      ≡ scan b k payload_exists rest (suc i) (suc n) (suc i) (set param n seg)
unfolding scan
scan-delim b rest k i n last param pre seg fs m payload_exists a =
    let step : (n + 1) % 256 ≡ suc n = omega (arith, a.wanted, a.is_byte) in
    rw (step, At-slice a) (ground (arith, a.wanted))

-- Another byte belongs to the parameter.
scan_byte :
    (b rest : Bytes) (k i n last c : ℕ) (param : List Bytes) (pre seg : Bytes) (fs : List Bytes)
    (m : ℕ)
    → c ≢ delim
    → At b (c ∷ rest) k i n last param pre seg fs m
    → scan b k true (c ∷ rest) i n last param ≡ scan b k true rest (suc i) n last param
unfolding scan
scan_byte b rest k i n last c param pre seg fs m other a = ground arith

-- What the loop lemma states, at the bytes that are left.
abbrev Scans : Bytes → Type 0
Scans rest =
    (b : Bytes) (k i n last : ℕ) (param : List Bytes) (pre seg : Bytes) (fs : List Bytes) (m : ℕ)
    → At b rest k i n last param pre seg fs m
    → outcome (scan b k true rest i n last param) ≡ prepend fs (take_fields (suc m) (seg ++ rest))

next_field :
    {b rest : Bytes} {k i n last : ℕ} {param : List Bytes} {pre seg : Bytes} {fs : List Bytes}
    (m : ℕ)
    → Scans rest
    → At b (delim ∷ rest) k i n last param pre seg fs m
    → outcome (scan b k true (delim ∷ rest) i n last param)
      ≡ prepend fs (take_fields (suc m) (seg ++ delim ∷ rest))
next_field {b} {rest} {k} {i} {n} {last} {param} {pre} {seg} {fs} zero ih a =
    rw (scan_last b rest k i n last param pre seg fs a, take_fields-seg zero seg rest a.clean)
      (unfold take_fields in refl)
next_field {b} {rest} {k} {i} {n} {last} {param} {pre} {seg} {fs} (suc m) ih a =
    rw
      (
        scan-delim b rest k i n last param pre seg fs m true a,
        take_fields-seg (suc m) seg rest a.clean,
        ← prepend-append fs (seg ∷ []) (take_fields (suc m) rest),
      )
      (ih b k (suc i) (suc n) (suc i) _ _ [] (fs ++ seg ∷ []) m (At-delim a))

-- With a payload expected, the loop finds what `take_fields` describes.
scan-take_fields :
    (rest b : Bytes) (k i n last : ℕ) (param : List Bytes) (pre seg : Bytes) (fs : List Bytes)
    (m : ℕ)
    → At b rest k i n last param pre seg fs m
    → outcome (scan b k true rest i n last param) ≡ prepend fs (take_fields (suc m) (seg ++ rest))
scan-take_fields [] b k i n last param pre seg fs m a =
    rw (take_fields-NoDelim m seg a.clean) (unfold scan outcome in refl)
scan-take_fields (c ∷ rest) b k i n last param pre seg fs m a = elim (ℕ_discrete c delim) [
  | yes e ↦ rw e (next_field m (scan-take_fields rest) (rw e at a))
  | no other ↦ rw (scan_byte b rest k i n last c param pre seg fs m other a) (
      rw (← append_assoc seg (c ∷ []) rest)
        (scan-take_fields rest b k (suc i) n last param pre (seg ++ c ∷ []) fs m (At-byte a other)))
]

pub prepend-nil : (o : Option (List Bytes × Bytes)) → prepend [] o ≡ o
prepend-nil none = refl
prepend-nil (some (gs, r)) = refl

-- The loop's first state.
pub At-start :
    (b : Bytes) (m : ℕ) → suc m < 256 → At b b (suc m) 0 0 0 (replicate (suc m) []) [] [] [] m
At-start b m h = record {
  whole = refl;
  clean = tt;
  wanted = omega arith;
  is_byte = h;
  found = refl;
  start = refl;
  here = omega arith;
  slots = refl;
}

pub parse-scan :
    (b : Bytes) (m : ℕ) (payload_exists : Bool)
    → byte_to_params_and_payload b (suc m) payload_exists
      ≡ scan b (suc m) payload_exists b 0 0 0 (replicate (suc m) [])
unfolding byte_to_params_and_payload
parse-scan b m payload_exists = ground arith

-- Asked for k parameters (0 < k < 256) and a payload, byte_to_params_and_payload returns the k
-- delimited fields and the bytes behind them, and fails exactly when there are fewer than k
-- delimiters.
pub parse-take_fields :
    (b : Bytes) (k : ℕ)
    → 0 < k
    → k < 256
    → outcome (byte_to_params_and_payload b k true) ≡ take_fields k b
parse-take_fields b zero pos h = elim pos [ ]
parse-take_fields b (suc m) pos h =
    rw (parse-scan b m true)
      (scan-take_fields b b (suc m) 0 0 0 _ [] [] [] m (At-start b m h) ∙ prepend-nil _)
