-- ===== src/Http/Audio/Limits.antt =====
-- Which forms are read, and what a panic takes.

use project_h_server.Prelude.{
  ℕ, ◌≡◌, ◌≤◌, ◌<◌, ◌⊎◌, refl, inl, inr, List, [], ◌∷◌, Option, none, some, Bool, true, false,
  Bytes, arith, Bool-cases, ltb, ◌&&◌, ℤ, pos, negsuc, parse_int, codes,
}
use project_h_server.Http.Audio.{
  AudioFile, AudioForm, AudioCall, Audio, read_audio, Reading, reads, refuses, fails, panics, ◌>>=◌,
  ◌>>◌, first, or_fails, or_refuses, refuse_if, too_long, expiry,
}

-- What a message that is stored has of its form, and its limits.
pub record IsAccepted (a : AudioCall) (m : Audio) : Type 0 where
  pub short : (n : ℕ) → m.duration ≡ pos n → n ≤ 300030
  pub expires_in : (d : ℕ) × (0 < d) × (d ≤ 60) × (m.expires ≡ a.after_days d)
  pub small :
      (f : AudioForm) × (file : AudioFile) × (files : List AudioFile) × (a.form ≡ some f)
      × (f.audio ≡ file ∷ files)
      × (file.size ≤ 2000000)
      × (file.content ≡ some m.content)

-- A key without a value, or without a file.
abbrev pub Lacks : AudioForm → Type 0
Lacks f = (f.display ≡ []) ⊎ ((f.duration ≡ []) ⊎ ((f.expire_days ≡ []) ⊎ (f.audio ≡ [])))

abbrev pub IsRead : AudioCall → Reading Audio → Type 0
IsRead a (reads m) = IsAccepted a m
IsRead a (refuses p d) = Unit
IsRead a fails = Unit
IsRead a panics = (f : AudioForm) × (a.form ≡ some f) × Lacks f

module _ (a : AudioCall) where
  step :
      {A : Type 0} (m : Reading A) (f : A → Reading Audio)
      → (m ≡ panics → IsRead a panics)
      → ((x : A) → m ≡ reads x → IsRead a (f x))
      → IsRead a (m >>= f)
  step (reads x) f h k = k x refl
  step (refuses p d) f h k = tt
  step fails f h k = tt
  step panics f h k = h refl

  step_internal :
      {A : Type 0} (o : Option A) (f : A → Reading Audio)
      → ((x : A) → o ≡ some x → IsRead a (f x))
      → IsRead a (or_fails o >>= f)
  step_internal none f k = tt
  step_internal (some x) f k = k x refl

  step_refused :
      {A : Type 0} (o : Option A) (p d : Bytes) (f : A → Reading Audio)
      → ((x : A) → o ≡ some x → IsRead a (f x))
      → IsRead a (or_refuses o p d >>= f)
  step_refused none p d f k = tt
  step_refused (some x) p d f k = k x refl

  step_check :
      (b : Bool) (p d : Bytes) (k : Reading Audio)
      → (b ≡ false → IsRead a k)
      → IsRead a (refuse_if b p d >> k)
  step_check true p d k h = tt
  step_check false p d k h = h refl

  step_first :
      {A : Type 0} (xs : List A) (f : A → Reading Audio)
      → (xs ≡ [] → IsRead a panics)
      → ((x : A) (rest : List A) → xs ≡ x ∷ rest → IsRead a (f x))
      → IsRead a (first xs >>= f)
  step_first [] f h k = h refl
  step_first (x ∷ xs) f h k = k x xs refl

short_enough : (z : ℤ) (n : ℕ) → too_long z ≡ false → z ≡ pos n → n ≤ 300030
short_enough (pos k) n h e = ground (arith, h, e)
short_enough (negsuc k) n h e = absurd (ground (arith, e))

within_60 :
    (after_days : ℕ → ℕ) (z : ℤ)
    → (d : ℕ) × (0 < d) × (d ≤ 60) × (expiry after_days z ≡ after_days d)
within_60 after_days (negsuc k) = (60, omega arith, omega arith, refl)
within_60 after_days (pos k) = elim (Bool-cases (ltb 0 k && ltb k 60)) [
  | inl e ↦ (k, ground (arith, e), ground (arith, e), rw e refl)
  | inr e ↦ (60, omega arith, omega arith, rw e refl)
]

pub read_audio-IsRead : (a : AudioCall) → IsRead a (read_audio a)
unfolding read_audio
read_audio-IsRead a = step_refused a a.form (codes "Multipart") (codes "invalid") _ (λ f ef.
    step_first a f.display _ (λ e. (f, ef, inl e))
      (λ display more1 e1.
        step_first a f.duration _ (λ e. (f, ef, inr (inl e)))
          (λ text more2 e2. step_internal a (parse_int text) _ (λ duration ed.
            step_check a (too_long duration) (codes "Duration") (codes "too long") _ (λ short.
              step_first a f.expire_days _ (λ e. (f, ef, inr (inr (inl e))))
                (λ days_text more3 e3. step_internal a (parse_int days_text) _ (λ days en.
                  step_first a f.audio _ (λ e. (f, ef, inr (inr (inr e))))
                    (λ file files e4.
                      step_check a (ltb 2000000 file.size) (codes "Audio")
                        (codes "exceeding length") _
                        (λ small.
                          step_refused a file.content (codes "Audio") (codes "invalid") _
                            (λ content ec. record {
                              short = λ n. short_enough duration n short;
                              expires_in = within_60 a.after_days days;
                              small = (f, file, files, ef, e4, ground (arith, small), ec);
                            }))))))))))
