-- ===== src/Router/Frame.antt =====
-- How `read_tcp` takes one frame off the connection (socket/socket_client.go and
-- messages/api_client.go have the same text), against the frames that `package_op` writes.
-- The connection is the bytes that still arrive before it breaks.
use project_h_server.Prelude.{
  ℕ, ◌+◌, ◌%◌, ◌^◌, ◌<◌, ◌≡◌, refl, ◌∙◌, List, [], ◌∷◌, ◌++◌, Option, none, some, false, Bytes,
  length, take, drop, arith, ltb, ◌==◌, if◌then◌else◌, be32, from_be, from_be-be32, take-append,
  drop-append, length-append,
}
use mathlib.Core.List.{append_assoc}
use project_h_server.Wire.{or_nil, param_bytes, package_op}

pub record Frame : Type 0 where
  pub op : ℕ
  pub body : Option Bytes

-- `io.ReadFull`: `none` is its error, when fewer bytes arrive.
unfoldable pub read_full : ℕ → Bytes → Option (Bytes × Bytes)
read_full n b = if ltb (length b) n then none else some (take n b, drop n b)

-- The body is read only if the size is positive, and is nil otherwise.
unfoldable pub read_body : ℕ → ℕ → Bytes → Option (Frame × Bytes)
read_body op size b =
    if size == 0 then some (record { op = op; body = none }, b) else elim (read_full size b) [
      | none ↦ none
      | some (body, rest) ↦ some (record { op = op; body = some body }, rest)
    ]

-- The header holds five bytes, the operation and the size.
unfoldable pub read_header : Bytes → Bytes → Option (Frame × Bytes)
read_header [] rest = none
read_header (op ∷ size) rest = read_body op (from_be 0 size) rest

-- One round of the loop of `read_tcp`, up to the dispatch on the operation.
unfoldable pub read_frame : Bytes → Option (Frame × Bytes)
unfolding read_full read_body read_header
read_frame b = elim (read_full 5 b) [ none ↦ none | some (header, rest) ↦ read_header header rest ]

-- What the reader makes of a body: nil for an empty one.
abbrev pub as_body : Bytes → Option Bytes
as_body [] = none
as_body (c ∷ b) = some (c ∷ b)

read_full-append : (xs ys : Bytes) → read_full (length xs) (xs ++ ys) ≡ some (xs, ys)
unfolding read_full
read_full-append xs ys =
    let fits : ltb (length (xs ++ ys)) (length xs) ≡ false = ground (arith, length-append xs ys) in
    rw (fits, take-append xs ys, drop-append xs ys)

read_body-append :
    (op : ℕ) (xs ys : Bytes)
    → read_body op (length xs) (xs ++ ys) ≡ some (record { op = op; body = as_body xs }, ys)
unfolding read_body
read_body-append op [] ys = refl
read_body-append op (x ∷ xs) ys = rw (read_full-append (x ∷ xs) ys, read_body) (ground arith)

read_frame-be32 :
    (op n : ℕ) (rest : Bytes) → n < 2 ^ 32 → read_frame (op ∷ be32 n ++ rest) ≡ read_body op n rest
unfolding read_frame be32
read_frame-be32 op n rest h = ground (arith, from_be-be32 n h)

-- A frame that `package_op` writes is read back whole, and the reader stops exactly at its end,
-- when its body is shorter than 2 ^ 32 bytes.
pub read_frame-package_op :
    (op : ℕ) (params : Option (List Bytes)) (payload : Option Bytes) (more : Bytes)
    → length (param_bytes params payload ++ or_nil payload) < 2 ^ 32
    → read_frame (package_op op params payload ++ more)
      ≡ some
          (record { op = op; body = as_body (param_bytes params payload ++ or_nil payload) }, more)
unfolding package_op
read_frame-package_op op params payload more small =
    let whole = param_bytes params payload ++ or_nil payload in
    let size : (length (param_bytes params payload) + length (or_nil payload)) % 2 ^ 32
        ≡ length whole =
      omega (arith, length-append (param_bytes params payload) (or_nil payload)) in
    rw (size, append_assoc (be32 (length whole)) whole more)
      (read_frame-be32 op (length whole) (whole ++ more) small ∙ read_body-append op whole more)
