-- ===== src/Http/Audio.antt =====
-- `AddAudioMessage` and `GetAudioMessage`, with `SendMessage`. The table `chains` and MinIO are
-- parameters. The goroutine that marks a message as seen is a job of its own.
pub mod Limits
pub mod Sent
pub mod Announced
pub mod Listed
pub mod Lost
pub mod Heard
use project_h_server.Prelude.{
  ℕ, ℤ, pos, negsuc, ◌+◌, ◌*◌, List, [], ◌∷◌, Option, none, some, Bool, true, false, not, ◌&&◌,
  Bytes, codes, same, ltb, if◌then◌else◌, parse_int,
}
use project_h_server.Http.Reply.{
  Body, audio_response, stream_response, message_data, World, Outcome, json, internal_error,
  bad_request, invalid_request,
}
use project_h_server.Http.Store.{Columns, Database}
use project_h_server.Http.Friends.{Call, unless_err, written, send_payload}
use project_h_server.Http.GetChain.{ChainRow}

-- A file of a form: its size, and what `Open` reads, if it does not fail.
pub record AudioFile : Type 0 where
  pub size : ℕ
  pub content : Option Bytes

-- `c.MultipartForm()`: the values and the files under each key.
pub record AudioForm : Type 0 where
  pub display : List Bytes
  pub duration : List Bytes
  pub expire_days : List Bytes
  pub audio : List AudioFile

-- A request to add a message: `call` has the users, of which `requestid` is `relation_id`, the new
-- message's id, `time_uuid`, and what the message to the other user needs; `after_days` is
-- `time.Now().AddDate(0, 0, …)`.
pub record AudioCall : Type 0 where
  pub call : Call
  pub chain_id : ℕ
  pub form : Option AudioForm
  pub after_days : ℕ → ℕ

-- Reading the form: a panic, an internal error, a refusal, or a value.
pub data Reading (A : Type 0) : Type 0 where
  reads : A → Reading A
  refuses : (problem description : Bytes) → Reading A
  fails panics : Reading A

infixl 5 ◌>>=◌
abbrev pub ◌>>=◌ : {A B : Type 0} → Reading A → (A → Reading B) → Reading B
reads a >>= f = f a
refuses p d >>= f = refuses p d
fails >>= f = fails
panics >>= f = panics

infixl 5 ◌>>◌
abbrev pub ◌>>◌ : {B : Type 0} → Reading (Unit {0}) → Reading B → Reading B
m >> k = m >>= λ _. k

-- `xs[0]`
abbrev pub first : {A : Type 0} → List A → Reading A
first [] = panics
first (a ∷ xs) = reads a

abbrev pub or_fails : {A : Type 0} → Option A → Reading A
or_fails none = fails
or_fails (some a) = reads a

abbrev pub or_refuses : {A : Type 0} → Option A → (problem description : Bytes) → Reading A
or_refuses none p d = refuses p d
or_refuses (some a) p d = reads a

abbrev pub refuse_if : Bool → (problem description : Bytes) → Reading (Unit {0})
refuse_if true p d = refuses p d
refuse_if false p d = reads tt

-- In milliseconds.
abbrev pub too_long : ℤ → Bool
too_long (pos n) = ltb (5 * 60000 + 30) n
too_long (negsuc n) = false

abbrev pub expiry : (ℕ → ℕ) → ℤ → ℕ
expiry after_days (pos n) = if ltb 0 n && ltb n 60 then after_days n else after_days 60
expiry after_days (negsuc n) = after_days 60

-- A message as it was read.
pub record Audio : Type 0 where
  pub display : Bytes
  pub duration : ℤ
  pub expires : ℕ
  pub content : Bytes

unfoldable pub read_audio : AudioCall → Reading Audio
unfolding parse_int
read_audio a = do
  form ← or_refuses a.form (codes "Multipart") (codes "invalid")
  display ← first form.display
  duration_text ← first form.duration
  duration ← or_fails (parse_int duration_text)
  refuse_if (too_long duration) (codes "Duration") (codes "too long")
  days_text ← first form.expire_days
  days ← or_fails (parse_int days_text)
  file ← first form.audio
  refuse_if (ltb 2000000 file.size) (codes "Audio") (codes "exceeding length")
  content ← or_refuses file.content (codes "Audio") (codes "invalid")
  reads (record {
    display = display;
    duration = duration;
    expires = expiry a.after_days days;
    content = content;
  })

-- MinIO's bucket and the writes of the table `chains`; a write also says whether it failed.
pub record Media (S : Type 0) : Type 0 where
  pub put_object : S → (chain_id message_id : ℕ) → Bytes → S × Bool
  pub get_object : S → (chain_id message_id : ℕ) → Option Bytes
  -- INSERT INTO chains, in which `seen` is not set
  pub insert_message : S → (chain_id : ℕ) → ChainRow → S × Bool
  -- UPDATE chains SET seen = true WHERE chain_id = ? AND created = ?
  pub set_seen : S → (chain_id created : ℕ) → S × Bool
  -- UPDATE user_relations SET last_seen = ? WHERE user_id = ? AND chain_id = ? IF last_seen < ?
  pub set_last_seen : S → (user_id chain_id time : ℕ) → S × Bool

abbrev pub no_columns : Columns
no_columns = record {
  created = none;
  chain_id = none;
  last_recv = none;
  last_seen = none;
  relation_username = none;
  friend = none;
  requested = none;
  active = none;
}

unfoldable pub recv_columns : ℕ → Columns
recv_columns t = record no_columns { last_recv = some t }

unfoldable pub seen_columns : ℕ → Columns
seen_columns t = record no_columns { last_seen = some t }

-- A request for a message: the parameters `seen` and `messageID`, if it is a UUID.
pub record GetCall : Type 0 where
  pub user_id : ℕ
  pub chain_id : ℕ
  pub seen : Bytes
  pub message_id : Option ℕ

-- `time_of` is `UUID.Time().UnixMilli()`.
module _ {S : Type 0} (db : Database S) (media : Media S) (json_fails : Body → Bool)
    (time_of : ℕ → ℕ) where
  abbrev pub new_row : AudioCall → Audio → ChainRow
  new_row a m = record {
    message_id = some a.call.time_uuid;
    user_id = a.call.user_id;
    created = time_of a.call.time_uuid;
    expires = m.expires;
    type_code = 0;
    seen = false;
    display = m.display;
    duration = m.duration;
  }

  unfoldable pub send_message : AudioCall → Audio → World S → Outcome S
  unfolding send_payload
  send_message a m w =
      send_payload db json_fails a.call 300 a.call.relation_id true
        (message_data a.chain_id a.call.time_uuid (time_of a.call.time_uuid) m.expires 0 m.display
          m.duration)
        w

  -- What follows once the form is read.
  unfoldable pub store_message : AudioCall → Audio → World S → Outcome S
  unfolding written send_message json recv_columns seen_columns
  store_message a m w =
      let t = time_of a.call.time_uuid in
      written db json_fails (media.put_object w.store a.chain_id a.call.time_uuid m.content) w
        (λ w1.
          written db json_fails (media.insert_message w1.store a.chain_id (new_row a m)) w1 (λ w2.
            written db json_fails
              (db.update w2.store a.call.relation_id a.call.user_id (recv_columns t)) w2
              (λ w3.
                written db json_fails
                  (db.update w3.store a.call.user_id a.call.relation_id (seen_columns t)) w3
                  (λ w4.
                    unless_err (send_message a m w4)
                      (json json_fails (audio_response a.call.time_uuid t))))))

  -- `none`: the request panics.
  unfoldable pub add_audio_message : AudioCall → World S → Option (Outcome S)
  unfolding read_audio store_message internal_error bad_request
  add_audio_message a w = elim (read_audio a) [
    | reads m ↦ some (store_message a m w)
    | refuses p d ↦ some (bad_request json_fails p d w)
    | fails ↦ some (internal_error json_fails w)
    | panics ↦ none
  ]

  -- The goroutine that marks a message as seen; its errors are only logged.
  unfoldable pub mark_seen : (user_id chain_id message_id : ℕ) → S → S
  mark_seen user chain id s =
      let res = media.set_seen s chain (time_of id) in
      if res.1 then res.0 else (media.set_last_seen res.0 user chain (time_of id)).0

  -- `helpers.ParseParamMessageUUID`: a text that is no UUID is refused, and the zero UUID is
  -- returned with what writing the refusal returns.
  unfoldable pub parse_param_message_uuid : Option ℕ → World S → ℕ × Outcome S
  unfolding bad_request
  parse_param_message_uuid none w =
      (0, bad_request json_fails (codes "MessageID") (codes "invalid") w)
  parse_param_message_uuid (some id) w = (id, (w, false))

  -- What follows once the id is parsed: the answer, and the goroutine that is started.
  unfoldable pub stream_audio : GetCall → (message_id : ℕ) → World S → Outcome S × Option (S → S)
  unfolding invalid_request mark_seen
  stream_audio c id w = elim (media.get_object w.store c.chain_id id) [
    | none ↦ (invalid_request json_fails (codes "Message") (codes "expired") w, none)
    | some object ↦ (
      (record w { body = stream_response object }, false),
      if same c.seen (codes "false") then some (mark_seen c.user_id c.chain_id id) else none,
    )
  ]

  -- Only an error of writing the refusal ends the request.
  unfoldable pub get_audio_message : GetCall → World S → Outcome S × Option (S → S)
  unfolding parse_param_message_uuid stream_audio
  get_audio_message c w =
      let p = parse_param_message_uuid c.message_id w in
      if p.1.1 then ((p.1.0, true), none) else stream_audio c p.0 p.1.0
