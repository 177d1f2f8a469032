-- ===== src/Tests/AudioData.antt =====
-- Tables and a bucket that are functions, for the audio messages.

use project_h_server.Prelude.{
  ℕ, ◌≡◌, ◌≢◌, arith, refl, ap, [], Option, none, some, true, false, Bytes, ◌==◌, ◌&&◌,
  if◌then◌else◌, ==_refl, pos,
}
use project_h_server.Http.Store.{Row, Answer, Database, IsDatabase, Works}
use project_h_server.Http.GetChain.{ChainRow}
use project_h_server.Http.Audio.{Media}
use project_h_server.Http.Audio.Sent.{Chats, IsMedia, seen_as, seen_of}
use project_h_server.Http.Audio.Heard.{MarksSeen}
use project_h_server.Tests.FriendsTests.{
  write_row, write_row-at, write_row-user, write_row-relation, failed-ne-found, failed-ne-not_found,
}

pub record Shelf : Type 0 where
  pub messages : ℕ → ℕ → Option ChainRow
  pub objects : ℕ → ℕ → Option Bytes
  pub rows : ℕ → ℕ → Row

abbrev pub put_at : {A : Type 0} → (ℕ → ℕ → Option A) → ℕ → ℕ → A → ℕ → ℕ → Option A
put_at f i j v i' j' = if (i' == i) && (j' == j) then some v else f i' j'

pub put_at-same :
    {A : Type 0} (f : ℕ → ℕ → Option A) (i j : ℕ) (v : A) → put_at f i j v i j ≡ some v
put_at-same f i j v = rw (==_refl i, ==_refl j) refl

abbrev pub no_chain : Answer ℕ
no_chain = Answer.failed

abbrev pub no_name : Answer Bytes
no_name = Answer.failed

abbrev pub rows : Database Shelf
rows = record {
  username = λ s u. no_name;
  chain_of = λ s u r. no_chain;
  update = λ s u r c. (record s { rows = write_row (Shelf.rows s) u r c }, false);
  insert_users = λ s c us. (s, false);
}

abbrev pub null_message : ChainRow
null_message = record {
  message_id = some 0;
  user_id = 0;
  created = 0;
  expires = 0;
  type_code = 0;
  seen = false;
  display = [];
  duration = pos 0;
}

abbrev pub marked : Option ChainRow → ChainRow
marked none = seen_as true null_message
marked (some r) = seen_as true r

abbrev pub shelf : Media Shelf
shelf = record {
  put_object = λ s c m b. (record s { objects = put_at (Shelf.objects s) c m b }, false);
  get_object = λ s c m. Shelf.objects s c m;
  insert_message = λ s c r. (
    record s {
      messages =
          put_at (Shelf.messages s) c (ChainRow.created r)
            (seen_as (seen_of (Shelf.messages s c (ChainRow.created r))) r);
    },
    false,
  );
  set_seen = λ s c t. (
    record s { messages = put_at (Shelf.messages s) c t (marked (Shelf.messages s c t)) },
    false,
  );
  set_last_seen = λ s u c t. (s, true);
}

abbrev pub chats : Chats Shelf
chats = record { messages = λ s. Shelf.messages s; objects = λ s. Shelf.objects s }

abbrev pub row_of : Shelf → ℕ → ℕ → Row
row_of s = s.rows

pub rows-IsDatabase : IsDatabase rows row_of
rows-IsDatabase = record {
  update-at = λ s u r c h. write_row-at (Shelf.rows s) u r c;
  update-user = λ s u r c u' r' h. write_row-user (Shelf.rows s) u r c u' r' h;
  update-relation = λ s u r c u' r' h. write_row-relation (Shelf.rows s) u r c u' r' h;
  insert-row = λ s c us u r. refl;
  found_chain = λ s u r c h. absurd (failed-ne-found c h);
  no_chain = λ s u r h. absurd (failed-ne-not_found h);
}

pub rows-Works : Works rows
rows-Works = record { updates = λ s u r c. refl; inserts = λ s c us. refl }

pub shelf-IsMedia : IsMedia rows shelf chats
shelf-IsMedia = record {
  put-object = λ s c m b h. put_at-same (Shelf.objects s) c m b;
  insert-message = λ s c r h.
      put_at-same (Shelf.messages s) c (ChainRow.created r)
        (seen_as (seen_of (Shelf.messages s c (ChainRow.created r))) r);
  insert-object = λ s c r c' m. refl;
  update-message = λ s u r x c t. refl;
  update-object = λ s u r x c m. refl;
}

marked-old : (o : Option ChainRow) (old : ChainRow) → o ≡ some old → marked o ≡ seen_as true old
marked-old o old h = ap marked h

put_at-other :
    {A : Type 0} (f : ℕ → ℕ → Option A) (i j j' : ℕ) (v : A) → j' ≢ j → put_at f i j v i j' ≡ f i j'
put_at-other f i j j' v h = ground (arith, h)

pub shelf-MarksSeen : MarksSeen shelf chats
shelf-MarksSeen = record {
  set-seen = λ s c t h. (
    marked (Shelf.messages s c t),
    put_at-same (Shelf.messages s) c t (marked (Shelf.messages s c t)),
    λ old e. marked-old (Shelf.messages s c t) old e,
  );
  seen-other =
      λ s c t t' h. put_at-other (Shelf.messages s) c t t' (marked (Shelf.messages s c t)) h;
  last_seen-message = λ s u c t c' t'. refl;
}
