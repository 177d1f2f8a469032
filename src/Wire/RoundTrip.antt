-- ===== src/Wire/RoundTrip.antt =====
-- What `package_op` writes, the parsers read back.
use project_h_server.Prelude.{
  ℕ, suc, zero, ◌<◌, ◌≡◌, refl, ◌∙◌, List, [], ◌∷◌, ◌++◌, none, some, Bytes, length, arith, All,
  true, false,
}
use mathlib.Core.List.{append_assoc}
use project_h_server.Wire.{Parsed, delim, join, param_bytes, byte_to_params_and_payload, outcome}
use project_h_server.Wire.Fields.{take_fields, take_fields-seg, NoDelim, parse-take_fields}
use project_h_server.Wire.LastField.{take_last, take_last-seg, parse-take_last}

take_fields-join :
    (p : Bytes) (ps : List Bytes) (payload : Bytes)
    → NoDelim p
    → All NoDelim ps
    → take_fields (suc (length ps)) (join (p ∷ ps) ++ delim ∷ payload) ≡ some (p ∷ ps, payload)
unfolding take_fields join
take_fields-join p [] payload h hs = take_fields-seg zero p payload h
take_fields-join p (q ∷ ps) payload h hs = rw (
  append_assoc p (delim ∷ join (q ∷ ps)) (delim ∷ payload),
  take_fields-seg (suc (length ps)) p (join (q ∷ ps) ++ delim ∷ payload) h,
  take_fields-join q ps payload hs.0 hs.1,
)

-- The body of a frame with parameters and a payload.
abbrev pub body : List Bytes → Bytes → Bytes
body ps payload = param_bytes (some ps) (some payload) ++ payload

-- Between 1 and 255 parameters free of the delimiter, and any payload, are read back as package_op
-- wrote them.
pub parse-param_bytes :
    (p : Bytes) (ps : List Bytes) (payload : Bytes)
    → NoDelim p
    → All NoDelim ps
    → suc (length ps) < 256
    → outcome (byte_to_params_and_payload (body (p ∷ ps) payload) (suc (length ps)) true)
      ≡ some (p ∷ ps, payload)
unfolding param_bytes
parse-param_bytes p ps payload h hs small =
    parse-take_fields _ (suc (length ps)) (omega arith) small
    ∙ rw (append_assoc (join (p ∷ ps)) (delim ∷ []) payload) (take_fields-join p ps payload h hs)

take_last-join :
    (ps : List Bytes) (c : ℕ) (q : Bytes)
    → All NoDelim ps
    → take_last (length ps) (join (ps ++ (c ∷ q) ∷ [])) ≡ some (ps ++ (c ∷ q) ∷ [], [])
unfolding take_last join
take_last-join [] c q h = refl
take_last-join (p ∷ []) c q h = take_last-seg zero p (c ∷ q) h.0
take_last-join (p ∷ p' ∷ ps) c q h = rw (
  take_last-seg (suc (length ps)) p (join (p' ∷ ps ++ (c ∷ q) ∷ [])) h.0,
  take_last-join (p' ∷ ps) c q h.1,
)

-- With no payload the last parameter may hold delimiters, and must not be empty.
pub parse-join :
    (ps : List Bytes) (c : ℕ) (q : Bytes)
    → All NoDelim ps
    → suc (length ps) < 256
    → outcome (
        byte_to_params_and_payload
          (param_bytes (some (ps ++ (c ∷ q) ∷ [])) none)
          (suc (length ps))
          false)
      ≡ some (ps ++ (c ∷ q) ∷ [], [])
unfolding param_bytes
parse-join ps c q h small = parse-take_last _ (length ps) small ∙ take_last-join ps c q h

-- A successful outcome, field by field.
pub outcome-some :
    (r : Parsed) {ps : List Bytes} {payload : Bytes}
    → outcome r ≡ some (ps, payload)
    → (r.err ≡ none) × (r.param ≡ ps) × (r.payload ≡ payload)
unfolding outcome
outcome-some r h = ground arith
