-- ===== src/Tests/AudioTests.antt =====
-- Audio messages over tables that are functions.

use project_h_server.Prelude.{
  ℕ, ◌*◌, ◌/◌, ◌≡◌, ◌≢◌, refl, [], ◌∷◌, none, some, Bool, true, false, codes, arith, pos, parse_int,
  parse_digits, parse_magnitude,
}
use project_h_server.Http.Reply.{Body, empty, audio_response, World, Outcome, json}
use project_h_server.Http.Store.{null_row}
use project_h_server.Http.Friends.{written, send_payload}
use project_h_server.Http.GetChain.{ChainRow}
use project_h_server.Http.Audio.{
  AudioForm, AudioCall, Audio, reads, read_audio, new_row, recv_columns, seen_columns, send_message,
  store_message, add_audio_message,
}
use project_h_server.Http.Audio.Sent.{message_of}
use project_h_server.Http.Audio.Lost.{unsent_message}
use project_h_server.Tests.FriendsTests.{write_row}
use project_h_server.Tests.AudioData.{Shelf, put_at, rows, shelf, rows-Works}

abbrev pub never : Body → Bool
never b = false

abbrev pub tens : ℕ → ℕ
tens id = id / 10

abbrev form : AudioForm
form = record {
  display = codes "hi" ∷ [];
  duration = codes "1000" ∷ [];
  expire_days = codes "7" ∷ [];
  audio = record { size = 3; content = some (1 ∷ 2 ∷ 3 ∷ []) } ∷ [];
}

abbrev pub adding : Bool → AudioCall
adding write_ok = record {
  call = record {
    user_id = 1;
    username = codes "ann";
    relation_id = 2;
    now = 5;
    sent_at = 6;
    time_uuid = 57;
    signature = some (codes "sign");
    marshal_ok = true;
    write_ok = write_ok;
  };
  chain_id = 7;
  form = some form;
  after_days = λ d. d * 86400000;
}

abbrev pub audio : Audio
audio = record {
  display = codes "hi";
  duration = pos 1000;
  expires = 7 * 86400000;
  content = 1 ∷ 2 ∷ 3 ∷ [];
}

read_form : (b : Bool) → read_audio (adding b) ≡ reads audio
unfolding read_audio parse_int parse_digits parse_magnitude
read_form b = refl

abbrev pub at : Shelf → World Shelf
at s = record { store = s; status = 200; body = empty; pushed = []; headers = []; mails = [] }

abbrev pub no_messages : Shelf
no_messages = record { messages = λ c t. none; objects = λ c m. none; rows = λ u r. null_row }

pub others : (adding true).call.relation_id ≢ (adding true).call.user_id
others h = ground (arith, h)

unsent_message_example :
    (o : Outcome Shelf) × (add_audio_message rows shelf never tens (adding false) (at no_messages)
      ≡ some o)
    × (o.1 ≡ false)
    × (o.0.pushed ≡ [])
    × (o.0.status ≡ 500)
    × (o.0.body ≡ audio_response 57 5)
unsent_message_example =
    unsent_message rows shelf never tens (adding false) audio (at no_messages) (codes "sign")
      rows-Works (read_form false) (λ s. refl) (λ s r. refl) refl refl refl refl refl

-- What an added message leaves.
abbrev pub row : ChainRow
row = new_row rows shelf never tens (adding true) audio

abbrev pub added : Outcome Shelf
added = (
  record {
    store = record {
      messages = put_at (λ c t. none) 7 5 row;
      objects = put_at (λ c m. none) 7 57 audio.content;
      rows = write_row (write_row (λ u r. null_row) 2 1 (recv_columns 5)) 1 2 (seen_columns 5);
    };
    status = 200;
    body = audio_response 57 5;
    pushed = message_of tens (adding true) audio (codes "sign") ∷ [];
    headers = [];
    mails = [];
  },
  false,
)

pub added_lem : add_audio_message rows shelf never tens (adding true) (at no_messages) ≡ some added
unfolding add_audio_message read_audio parse_int parse_digits parse_magnitude store_message written
    send_message send_payload json
added_lem = refl

pub told : added.0.pushed ≢ []
told h = cc
