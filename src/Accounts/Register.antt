-- ===== src/Accounts/Register.antt =====
-- `Register` and `ResendVerification`. What the body parser and the validator make of a request,
-- the random code and bcrypt are arguments; letters are those of ASCII.
use project_h_server.Prelude.{
  ℕ, ◌+◌, ◌-◌, [], ◌∷◌, ◌++◌, map, Option, none, some, Bool, true, false, not, Bytes, codes, leb,
  ◌==◌, ◌&&◌, ◌||◌, if◌then◌else◌,
}
use project_h_server.Http.Reply.{
  Body, World, Outcome, internal_error, bad_request, invalid_request, ok,
}
use project_h_server.Accounts.Password.{
  Cipher, Try, value, refused, panics, decrypt_request_password_hash,
}
use project_h_server.Accounts.Store.{Database, Pending, found, not_found, failed}

-- A body: not JSON, refused by the validator for a field and a tag, or read.
pub data Parsed (A : Type 0) : Type 0 where
  bad_json : Parsed A
  invalid : (field tag : Bytes) → Parsed A
  fields : A → Parsed A

pub record RegisterSchema : Type 0 where
  pub username : Bytes
  pub email : Bytes
  pub enc_password_hash : Bytes

-- What `RandomTokenString(3)`, the clock in nanoseconds and `bcrypt.GenerateFromPassword` answer.
pub record RegisterCall : Type 0 where
  pub random_code : Option Bytes
  pub now : ℕ
  pub hash_password : Bytes → Option Bytes

-- A handler that may panic; fiber does not recover.
abbrev pub Handled : Type 0 → Type 0
Handled S = Try (Outcome S)

-- The expression ^[a-zA-Z0-9_]+$ matches.
abbrev pub is_username_char : ℕ → Bool
is_username_char c =
    (leb 97 c && leb c 122) || ((leb 65 c && leb c 90) || ((leb 48 c && leb c 57) || c == 95))

abbrev pub all_username_chars : Bytes → Bool
all_username_chars [] = true
all_username_chars (c ∷ s) = is_username_char c && all_username_chars s

unfoldable pub valid_username : Bytes → Bool
valid_username [] = false
valid_username (c ∷ s) = all_username_chars (c ∷ s)

abbrev pub lower_char : ℕ → ℕ
lower_char c = if leb 65 c && leb c 90 then c + 32 else c

abbrev pub upper_char : ℕ → ℕ
upper_char c = if leb 97 c && leb c 122 then c - 32 else c

unfoldable pub to_lower : Bytes → Bytes
to_lower s = map lower_char s

unfoldable pub to_upper : Bytes → Bytes
to_upper s = map upper_char s

module _ {S : Type 0} (db : Database S) (json_fails : Body → Bool) where
  -- `SendVerifEmail` only logs a failure.
  abbrev pub send_verif_email : Bytes → Bytes → World S → World S
  send_verif_email email code w = record w { mails = w.mails ++ (email, code) ∷ [] }

  -- `HandleBadJsonError` and `HandleValidatorError`, or the handler.
  abbrev pub with_body : {A : Type 0} → Parsed A → World S → (A → World S → Handled S) → Handled S
  with_body bad_json w k = value (bad_request json_fails (codes "JSON body") (codes "invalid") w)
  with_body (invalid field tag) w k = value (bad_request json_fails field tag w)
  with_body (fields a) w k = k a w

  unfoldable pub save_pending : Bytes → Pending → World S → Outcome S
  unfolding internal_error ok
  save_pending email p w =
      let res = db.set_pending w.store email p in
      if res.1
      then internal_error json_fails (record w { store = res.0 })
      else ok json_fails (send_verif_email email p.code (record w { store = res.0 }))

  unfoldable pub hash_and_save : RegisterCall → RegisterSchema → Bytes → Bytes → World S → Outcome S
  unfolding save_pending internal_error to_lower to_upper
  hash_and_save call req code password w = elim (call.hash_password password) [
    | none ↦ internal_error json_fails w
    | some hash ↦
        save_pending (to_lower req.email)
          (record { code = to_upper code; username = req.username; password_hash = hash }) w
  ]

  -- `if len(password) == 0 { return err }`.
  abbrev pub with_password : Try (Bytes × Outcome S) → (Bytes → World S → Handled S) → Handled S
  with_password (value ([], o)) k = value o
  with_password (value (c ∷ password, (w, e))) k = k (c ∷ password) w
  with_password (refused r) k = refused r
  with_password panics k = panics

  module _ (cipher : Cipher) where
    unfoldable pub register_new : RegisterCall → RegisterSchema → World S → Handled S
    unfolding internal_error hash_and_save decrypt_request_password_hash
    register_new call req w = elim call.random_code [
      | none ↦ value (internal_error json_fails w)
      | some code ↦
          with_password
            (decrypt_request_password_hash cipher json_fails req.enc_password_hash call.now w)
            (λ password w1. value (hash_and_save call req code password w1))
    ]

    -- The email is looked up as it was sent.
    unfoldable pub check_email : RegisterCall → RegisterSchema → World S → Handled S
    unfolding internal_error invalid_request register_new
    check_email call req w = elim (db.count_users w.store req.email) [
      | none ↦ value (internal_error json_fails w)
      | some n ↦
          let new = register_new call req w in
          if n == 0
          then new
          else value (invalid_request json_fails (codes "Email") (codes "exists") w)
    ]

    unfoldable pub check_username : RegisterCall → RegisterSchema → World S → Handled S
    unfolding internal_error invalid_request bad_request check_email valid_username
    check_username call req w =
        if not (valid_username req.username)
        then value (bad_request json_fails (codes "Username") (codes "regex") w)
        else elim (db.count_public w.store req.username) [
          | none ↦ value (internal_error json_fails w)
          | some n ↦
              if n == 0
              then check_email call req w
              else value (invalid_request json_fails (codes "Username") (codes "exists") w)
        ]

    unfoldable pub register : RegisterCall → Parsed RegisterSchema → World S → Handled S
    unfolding check_username bad_request
    register call parsed w = with_body parsed w (check_username call)

  unfoldable pub resend_verification : Parsed Bytes → World S → Handled S
  unfolding bad_request internal_error ok to_lower
  resend_verification parsed w = with_body parsed w (λ email w1.
      elim (db.get_code w1.store (to_lower email)) [
        | found code ↦ value (ok json_fails (send_verif_email (to_lower email) code w1))
        | not_found ↦ value (bad_request json_fails (codes "Email") (codes "invalid") w1)
        | failed ↦ value (internal_error json_fails w1)
      ])
