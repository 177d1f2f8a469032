-- ===== src/Wire.antt =====
-- socket/conn_helpers.go (messages/conn_helpers.go is the same text in another package): the
-- frames that the server and its router exchange, and the splitting of a frame's body.
-- A Go string is its bytes. A nil slice is `none` where the code tests for nil.
pub mod Fields
pub mod LastField
pub mod RoundTrip
use project_h_server.Prelude.{
  ℕ, suc, zero, ◌+◌, ◌-◌, ◌%◌, ◌^◌, Bool, true, false, not, ◌&&◌, List, [], ◌∷◌, ◌++◌, Option, none,
  some, Bytes, length, take, drop, set, replicate, ltb, ◌==◌, ◌||◌, if◌then◌else◌, be32, from_be,
}

-- `DEFAULT_DELIM`, the byte of ":".
abbrev pub delim : ℕ
delim = 58

-- `strings.Join(params, ":")`.
unfoldable pub join : List Bytes → Bytes
join [] = []
join (p ∷ []) = p
join (p ∷ q ∷ ps) = p ++ delim ∷ join (q ∷ ps)

abbrev pub or_nil {ℓ} : {A : Type ℓ} → Option (List A) → List A
or_nil none = []
or_nil (some xs) = xs

-- `b_param`: the joined parameters, and the delimiter if neither argument is nil.
unfoldable pub param_bytes : Option (List Bytes) → Option Bytes → Bytes
param_bytes (some ps) (some payload) = join ps ++ delim ∷ []
param_bytes params _ = join (or_nil params)

-- The size field is a `uint32`, so it wraps.
unfoldable pub package_op : ℕ → Option (List Bytes) → Option Bytes → Bytes
package_op op params payload =
    let b_param = param_bytes params payload in
    let size = length b_param + length (or_nil payload) in
    op ∷ be32 (size % 2 ^ 32) ++ (b_param ++ or_nil payload)

pub data ParseError : Type 0 where
  unexpected_payload more_parameters less_parameters : ParseError

-- The three named results of `byte_to_params_and_payload`.
pub record Parsed : Type 0 where
  pub param : List Bytes
  pub payload : Bytes
  pub err : Option ParseError

-- `b[from:to]`.
abbrev pub slice : Bytes → ℕ → ℕ → Bytes
slice b from to = take (to - from) (drop from b)

-- A complete parameter list: what happens at the delimiter that ends the last parameter.
unfoldable pub close_params : Bytes → Bool → ℕ → List Bytes → Parsed
close_params b true i param = record { param = param; payload = drop (suc i) b; err = none }
close_params b false i param =
    if i == length b - 1
    then record { param = param; payload = []; err = none }
    else record { param = param; payload = []; err = some less_parameters }

-- The loop over `i`; `rest` is `b[i:]`, and `n` is a byte.
unfoldable pub scan : Bytes → ℕ → Bool → Bytes → ℕ → ℕ → ℕ → List Bytes → Parsed
scan b n_param payload_exists [] i n last param = record {
  param = param;
  payload = [];
  err = some more_parameters;
}
scan b n_param payload_exists (c ∷ rest) i n last param =
    let here = set param n (slice b last i) in
    let next = (n + 1) % 256 in
    let after_delim = scan b n_param payload_exists rest (suc i) next (suc i) here in
    let after_byte = scan b n_param payload_exists rest (suc i) n last param in
    if (n == n_param - 1) && not payload_exists
    then record { param = set param n (drop last b); payload = []; err = none }
    else if c == delim
    then if next == n_param then close_params b payload_exists i here else after_delim
    else after_byte

-- The case `n_param == 0`.
unfoldable pub no_params : Bytes → Bool → Parsed
no_params b true = record { param = []; payload = b; err = none }
no_params [] false = record { param = []; payload = []; err = none }
no_params (c ∷ []) false =
    if c == delim
    then record { param = []; payload = []; err = none }
    else record { param = []; payload = []; err = some unexpected_payload }
no_params (c ∷ d ∷ b) false = record { param = []; payload = []; err = some unexpected_payload }

unfoldable pub byte_to_params_and_payload : Bytes → ℕ → Bool → Parsed
unfolding no_params scan close_params
byte_to_params_and_payload b n_param payload_exists =
    if n_param == 0
    then no_params b payload_exists
    else scan b n_param payload_exists b 0 0 0 (replicate n_param [])

-- The result of a caller that returns on an error.
unfoldable pub outcome : Parsed → Option (List Bytes × Bytes)
outcome r = elim r.err [ none ↦ some (r.param, r.payload) | some _ ↦ none ]
