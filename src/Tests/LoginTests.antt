-- ===== src/Tests/LoginTests.antt =====
-- Logins over tables that are functions.
use project_h_server.Prelude.{
  ◌+◌, ◌≡◌, ◌≢◌, refl, [], ◌∷◌, some, Bool, true, false, Bytes, codes, same, arith, decimal,
  parse_int, parse_digits, parse_magnitude,
}
use project_h_server.Http.Reply.{session_response, World, json, status_json, ok}
use project_h_server.Http.Authenticate.{Claims, valid, Stored, nil, enters, authenticate}
use project_h_server.Accounts.Base64.{
  decode_string, decode_groups, group, last_group, sextet, drop_line_ends,
}
use project_h_server.Accounts.Password.{
  value, decrypt, decrypt_chunks, split_dots, split_from, decrypt_request_password_hash,
}
use project_h_server.Accounts.Store.{Database, Tables}
use project_h_server.Accounts.Tokens.{
  refresh_token_duration, generate_jwt, execute, fill, run_queue, finish,
  generate_and_refresh_tokens,
}
use project_h_server.Accounts.Register.{
  fields, register, resend_verification, valid_username, to_lower, to_upper, check_username,
  check_email, register_new, hash_and_save, save_pending,
}
use project_h_server.Accounts.Verify.{
  verify_email, check_code, insert_all, after_insert_public, insert_user, insert_private,
}
use project_h_server.Accounts.Login.{login, find_and_check, check_password, open_session}
use project_h_server.Accounts.Spec.Names.{handle_all}
use project_h_server.Accounts.Session.{Succeeds, session_request, login-authenticate}
use project_h_server.Accounts.Session.Lost.{login_without_tokens}
use project_h_server.Tests.AccountsData.{
  tables, plain, decrypt_sent, never, sign, at, no_tables, logging_in, credentials, day, ann,
  with_ann, find_ann, same_pw,
}

access-ne-empty : codes "access" ≢ []
access-ne-empty h = cc

r1-ne-empty : codes "r1" ≢ []
r1-ne-empty h = cc

s1-ne-empty : codes "s1" ≢ []
s1-ne-empty h = cc

ann-Succeeds :
    Succeeds tables never sign plain same logging_in credentials
      (at with_ann)
      ann
      (codes "s1")
      (codes "r1")
      (codes "access")
ann-Succeeds = record {
  row_found = find_ann;
  password_fits = (112, codes "w", decrypt_sent, same_pw);
  session_made = refl;
  token_made = refl;
  access_signed = refl;
  not_blank = (s1-ne-empty, r1-ne-empty, access-ne-empty);
  token_stored = refl;
  answered = refl;
}

abbrev ann_claims : Claims
ann_claims = record { id = codes "u1"; username = codes "ann"; session_id = codes "s1" }

abbrev stored : Bytes → Stored
stored d = nil

abbrev keep : Claims → World Tables → World Tables × Bool
keep c w = (w, false)

login-authenticate_example :
    (w' : World Tables) × (login tables never sign plain same logging_in
        (fields credentials)
        (at with_ann)
      ≡ value (w', false))
    × (w'.body ≡ session_response (codes "s1"))
    × (w'.headers
        ≡ (codes "x-refreshed", codes "true")
          ∷ (codes "x-refresh-token", codes "r1")
          ∷ (codes "x-refresh-token-expire", decimal (1700000000000 + refresh_token_duration))
          ∷ (codes "x-access-token", codes "access")
          ∷ [])
    × (authenticate never
          (λ b. valid ann_claims)
          stored
          keep
          (session_request
            (codes "s1")
            (codes "r1")
            (codes "access")
            (codes "Bearer ")
            (codes "true")
            (1700000000000 + refresh_token_duration))
          1700000001000
          (at with_ann)
        ≡ enters ann_claims (at with_ann))
login-authenticate_example =
    login-authenticate tables never sign plain same (λ b. valid ann_claims) stored keep logging_in
      credentials (at with_ann) ann (codes "s1") (codes "r1") (codes "access") (codes "Bearer ")
      (codes "true") 1700000001000 (at with_ann) ann-Succeeds refl (omega arith) (omega arith)

abbrev no_redis : Database Tables
no_redis = record tables { set_token = λ t d k. (t, true) }

login_without_tokens_example :
    (w' : World Tables) × (login no_redis never sign plain same logging_in
        (fields credentials)
        (at with_ann)
      ≡ value (w', false))
    × (w'.body ≡ session_response (codes "s1"))
    × (w'.headers ≡ [])
    × (w'.status ≡ 500)
login_without_tokens_example =
    login_without_tokens no_redis never sign plain same logging_in credentials (at with_ann) ann 112
      (codes "w") (codes "s1") (codes "r1") (codes "access") find_ann decrypt_sent same_pw refl refl
      refl access-ne-empty (λ k. refl) refl refl

-- A day from empty tables: registration, a second mail, verification and a login.
abbrev evening : Tables
evening = (handle_all tables never sign plain same day (at no_tables)).store

day_logs_in :
    evening.tokens (codes "s1")
    ≡ some (record {
      token = codes "r1";
      user_id = codes "u1";
      ip = codes "::1";
      expire_at = 1700000000000 + refresh_token_duration;
    })
unfolding register verify_email login resend_verification check_username check_email register_new
    decrypt_request_password_hash hash_and_save save_pending check_code insert_all
    after_insert_public insert_user insert_private find_and_check check_password open_session
    generate_and_refresh_tokens fill generate_jwt execute run_queue finish json status_json ok
    valid_username to_lower to_upper same decrypt decrypt_chunks split_dots split_from decode_string
    decode_groups group last_group sextet drop_line_ends parse_int parse_digits parse_magnitude
day_logs_in = refl
