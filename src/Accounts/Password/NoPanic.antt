-- ===== src/Accounts/Password/NoPanic.antt =====
-- A time stamp of the last minute is long enough for the nonce that is cut from it.
use native.Mathlib.Nat.{pow-le-pow_right}
use project_h_server.Prelude.{
  ℕ, ◌^◌, ◌≤◌, ◌<◌, ◌≡◌, ◌≢◌, refl, List, [], ◌∷◌, Option, some, none, Bool, true, false, ltb,
  arith, Bool-cases, inl, inr, length, Bytes, ℤ, pos, negsuc, parse_int, parse_int_bound,
}
use project_h_server.Accounts.Base64.{decode_string, length-decode_string}
use project_h_server.Accounts.Password.{
  Cipher, Try, value, refused, panics, Refusal, internal, too_old, ◌>>=◌, or_internal, is_old,
  check_time, min_nonce, decrypt_chunks, decrypt, split_dots,
}

-- The first minute of which a time stamp has 13 digits, in nanoseconds since 1970.
abbrev pub in_2001 : ℕ
in_2001 = 1000000060000000000

or_internal-ne-panics : {A : Type 0} (o : Option A) → or_internal o ≢ panics
or_internal-ne-panics none h = cc
or_internal-ne-panics (some a) h = cc

-- A chain panics at its first step or behind it.
>>=-ne-panics :
    {A B : Type 0} (m : Try A) (f : A → Try B)
    → m ≢ panics
    → ((a : A) → m ≡ value a → f a ≢ panics)
    → (m >>= f) ≢ panics
>>=-ne-panics (value a) f h k = k a refl
>>=-ne-panics (refused r) f h k = λ e. cc
>>=-ne-panics panics f h k = absurd (h refl)

then_internal :
    {A B : Type 0} (o : Option A) (f : A → Try B)
    → ((a : A) → o ≡ some a → f a ≢ panics)
    → (or_internal o >>= f) ≢ panics
then_internal none f k = λ e. cc
then_internal (some a) f k = k a refl

-- A number of milliseconds of the last minute has 13 digits.
recent_digits :
    (nonce : Bytes) (t : ℤ) (now : ℕ)
    → in_2001 ≤ now
    → parse_int nonce ≡ some t
    → is_old t now ≡ false
    → 12 < length nonce
recent_digits nonce (pos t) now h e o = elim (Bool-cases (ltb 12 (length nonce))) [
  | inl l ↦ ground (arith, l)
  | inr l ↦
      let big : 1000000000000 ≤ t = ground (arith, h, o) in
      let short : 10 ^ length nonce ≤ 10 ^ 12 =
        pow-le-pow_right (omega arith) {j = 12} (ground (arith, l)) in
      absurd (omega (arith, big, short, parse_int_bound nonce t e))
]
recent_digits nonce (negsuc t) now h e o = absurd (ground (arith, h, o))

min_nonce-ne-panics : (chunk : Bytes) → 12 ≤ length chunk → min_nonce chunk ≢ panics
min_nonce-ne-panics chunk h e = ground (arith, h, e)

check_time-ne-panics : (b : Bool) → check_time b ≢ panics
check_time-ne-panics true h = cc
check_time-ne-panics false h = cc

check_time-false : (b : Bool) {u : Unit {0}} → check_time b ≡ value u → b ≡ false
check_time-false true h = absurd (refused-ne-value too_old tt h)
  where
    refused-ne-value : (r : Refusal) (u : Unit {0}) → refused r ≢ value u
    refused-ne-value r u e = cc
check_time-false false h = refl

module _ (cipher : Cipher) where
  decrypt_chunks-ne-panics :
      (a b c : Bytes) (now : ℕ) → in_2001 ≤ now → decrypt_chunks cipher a b c now ≢ panics
  unfolding decrypt_chunks
  decrypt_chunks-ne-panics a b c now h = then_internal (decode_string c) _ (λ nonce en.
      then_internal (parse_int nonce) _ (λ t et.
        >>=-ne-panics (check_time (is_old t now)) _ (check_time-ne-panics (is_old t now)) (λ u ec.
          then_internal (decode_string a) _ (λ enc_key ek.
            then_internal (decode_string b) _ (λ enc_password ep.
              then_internal (cipher.decrypt_oaep enc_key) _ (λ key ed.
                then_internal (cipher.new_gcm key) _ (λ gcm eg.
                  >>=-ne-panics (min_nonce c) _
                    (min_nonce-ne-panics c
                      (long nonce t en et (check_time-false (is_old t now) ec)))
                    (λ min em. or_internal-ne-panics (cipher.open_gcm gcm min enc_password)))))))))
    where
      long :
          (nonce : Bytes) (t : ℤ)
          → decode_string c ≡ some nonce
          → parse_int nonce ≡ some t
          → is_old t now ≡ false
          → 12 ≤ length c
      long nonce t en et o =
          omega (arith, recent_digits nonce t now h et o, length-decode_string c nonce en)

  -- A minute after the second in which a time in milliseconds first has 13 digits (in 2001), and
  -- from then on, the decryption of a request's password never panics, whatever the client sends
  -- and whatever RSA, AES and GCM answer: the nonce is not shorter than the 12 bytes that are cut
  -- from it.
  pub decrypt-ne-panics : (enc : Bytes) (now : ℕ) → in_2001 ≤ now → decrypt cipher enc now ≢ panics
  unfolding decrypt
  decrypt-ne-panics enc now h = chunks (split_dots enc)
    where
      chunks :
          (cs : List Bytes)
          → (elim cs [ a ∷ b ∷ c ∷ [] ↦ decrypt_chunks cipher a b c now | _ ↦ refused internal ])
            ≢ panics
      chunks [] e = cc
      chunks (a ∷ []) e = cc
      chunks (a ∷ b ∷ []) e = cc
      chunks (a ∷ b ∷ c ∷ []) e = decrypt_chunks-ne-panics a b c now h e
      chunks (a ∷ b ∷ c ∷ d ∷ cs) e = cc
