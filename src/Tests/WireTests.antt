-- ===== src/Tests/WireTests.antt =====
-- Frames and bodies (socket/conn_helpers.go).
use project_h_server.Prelude.{◌≡◌, refl, [], ◌∷◌, none, some, true, false, codes, be32, arith}
use project_h_server.Wire.{
  join, param_bytes, package_op, more_parameters, byte_to_params_and_payload, outcome,
}
use project_h_server.Wire.Fields.{take_fields, parse-take_fields}
use project_h_server.Wire.LastField.{take_last, parse-take_last}
use project_h_server.Wire.RoundTrip.{body, parse-param_bytes}

-- Packing and parsing, on literals.
package_op_test :
    package_op 30 (some (codes "s" ∷ codes "w" ∷ [])) (some (codes "{}"))
    ≡ 30 ∷ 0 ∷ 0 ∷ 0 ∷ 6 ∷ codes "s:w:{}"
unfolding package_op be32 param_bytes join
package_op_test = refl

parse_test :
    (byte_to_params_and_payload (codes "a:b:c") 2 true
      ≡ record { param = codes "a" ∷ codes "b" ∷ []; payload = codes "c"; err = none })
    × (byte_to_params_and_payload (codes "a:b:c") 2 false
        ≡ record { param = codes "a" ∷ codes "b:c" ∷ []; payload = []; err = none })
    × (byte_to_params_and_payload (codes "a:") 2 false
        ≡ record { param = codes "a" ∷ [] ∷ []; payload = []; err = some more_parameters })
unfolding byte_to_params_and_payload
parse_test = (refl, refl, refl)

parse-take_fields_example :
    outcome (byte_to_params_and_payload (codes "a:b:c") 2 true) ≡ take_fields 2 (codes "a:b:c")
parse-take_fields_example = parse-take_fields (codes "a:b:c") 2 (omega arith) (omega arith)

parse-take_last_example :
    outcome (byte_to_params_and_payload (codes "a:b:c") 2 false) ≡ take_last 1 (codes "a:b:c")
parse-take_last_example = parse-take_last (codes "a:b:c") 1 (omega arith)

parse-param_bytes_example :
    outcome (byte_to_params_and_payload (body (codes "s" ∷ codes "w" ∷ []) (codes "1:2")) 2 true)
    ≡ some (codes "s" ∷ codes "w" ∷ [], codes "1:2")
parse-param_bytes_example =
    parse-param_bytes (codes "s") (codes "w" ∷ []) (codes "1:2") (omega arith) (omega arith)
      (omega arith)
