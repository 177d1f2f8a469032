-- ===== src/Accounts/Password.antt =====
-- `DecryptRequestPasswordHash`: three parts around dots, an encrypted key, the password encrypted
-- with that key, and a time stamp that is also the nonce. RSA, AES and GCM are arguments.
pub mod NoPanic
use project_h_server.Prelude.{
  ℕ, ◌+◌, ◌-◌, ◌*◌, List, [], ◌∷◌, ◌++◌, Option, none, some, Bool, true, false, not, ◌==◌, ltb,
  length, drop, if◌then◌else◌, Bytes, codes, ℤ, pos, negsuc, parse_int,
}
use project_h_server.Http.Reply.{Body, World, Outcome, internal_error, bad_request}
use project_h_server.Accounts.Base64.{decode_string}

-- `strings.Split(s, ".")`, with the current part before the rest.
unfoldable pub split_from : Bytes → Bytes → List Bytes
split_from part [] = part ∷ []
split_from part (c ∷ s) =
    let here = split_from [] s in
    let on = split_from (part ++ c ∷ []) s in if c == 46 then part ∷ here else on

unfoldable pub split_dots : Bytes → List Bytes
unfolding split_from
split_dots s = split_from [] s

-- Why a password is refused: an internal error, or a time stamp more than a minute old.
pub data Refusal : Type 0 where
  internal too_old : Refusal

pub data Try (A : Type 0) : Type 0 where
  value : A → Try A
  refused : Refusal → Try A
  panics : Try A

infixl 5 ◌>>=◌
abbrev pub ◌>>=◌ : {A B : Type 0} → Try A → (A → Try B) → Try B
value a >>= f = f a
refused r >>= f = refused r
panics >>= f = panics

infixl 5 ◌>>◌
abbrev pub ◌>>◌ : {B : Type 0} → Try (Unit {0}) → Try B → Try B
m >> k = m >>= λ _. k

abbrev pub or_internal : {A : Type 0} → Option A → Try A
or_internal none = refused internal
or_internal (some a) = value a

-- `rsa.DecryptOAEP` with the server's key, `aes.NewCipher` and `cipher.NewGCM` of a key, and
-- `Open` with a key and a nonce.
pub record Cipher : Type 0 where
  pub decrypt_oaep : Bytes → Option Bytes
  pub new_gcm : Bytes → Option Bytes
  pub open_gcm : Bytes → Bytes → Bytes → Option Bytes

-- `timestamp.Add(60 * time.Second).Before(now)` for milliseconds and a time in nanoseconds; no
-- time before 1970 is a minute away from now.
abbrev pub is_old : ℤ → ℕ → Bool
is_old (pos t) now = ltb ((t + 60000) * 1000000) now
is_old (negsuc t) now = ltb 60000000000 (now + (t + 1) * 1000000)

abbrev pub check_time : Bool → Try (Unit {0})
check_time true = refused too_old
check_time false = value tt

-- `[]byte(chunk)[len(chunk)-12:]`, which panics for a shorter one.
abbrev pub min_nonce : Bytes → Try Bytes
min_nonce chunk = if ltb (length chunk) 12 then panics else value (drop (length chunk - 12) chunk)

module _ (cipher : Cipher) where
  unfoldable pub decrypt_chunks : Bytes → Bytes → Bytes → ℕ → Try Bytes
  unfolding decode_string parse_int
  decrypt_chunks enc_key_chunk enc_password_chunk nonce_chunk now = do
    nonce ← or_internal (decode_string nonce_chunk)
    timestamp ← or_internal (parse_int nonce)
    check_time (is_old timestamp now)
    enc_key ← or_internal (decode_string enc_key_chunk)
    enc_password ← or_internal (decode_string enc_password_chunk)
    key ← or_internal (cipher.decrypt_oaep enc_key)
    gcm ← or_internal (cipher.new_gcm key)
    min ← min_nonce nonce_chunk
    or_internal (cipher.open_gcm gcm min enc_password)

  unfoldable pub decrypt : Bytes → ℕ → Try Bytes
  unfolding decrypt_chunks split_dots
  decrypt enc_password_hash now = elim (split_dots enc_password_hash) [
    | a ∷ b ∷ c ∷ [] ↦ decrypt_chunks a b c now
    | _ ↦ refused internal
  ]

  -- What the caller gets: the password, empty where it is refused, with the error; or a panic.
  module _ {S : Type 0} (json_fails : Body → Bool) where
    unfoldable pub decrypt_request_password_hash : Bytes → ℕ → World S → Try (Bytes × Outcome S)
    unfolding decrypt internal_error bad_request
    decrypt_request_password_hash enc now w = elim (decrypt enc now) [
      | value password ↦ value (password, (w, false))
      | refused internal ↦ value ([], internal_error json_fails w)
      | refused too_old ↦
          value ([], bad_request json_fails (codes "EncPasswordHash") (codes "Invalid") w)
      | panics ↦ panics
    ]
