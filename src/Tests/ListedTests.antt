-- ===== src/Tests/ListedTests.antt =====
-- An added message in the list of its chain, before and after it is heard.
use mathlib.Core.Path.{subst}
use project_h_server.Prelude.{
  ℕ, ◌≡◌, refl, List, [], ◌∷◌, Option, some, true, false, Bytes, codes, same, arith, Any, pos,
}
use project_h_server.Http.Reply.{stream_response}
use project_h_server.Http.GetChain.{ChainRow, MessageSchema, get_chain_service}
use project_h_server.Http.GetChain.Window.{Selects, shown}
use project_h_server.Http.GetChain.Service.{IsNewest}
use project_h_server.Http.Audio.{Audio, GetCall, get_audio_message, mark_seen}
use project_h_server.Http.Audio.Sent.{message_of, seen_as}
use project_h_server.Http.Audio.Heard.{get_audio_message-seen}
use project_h_server.Http.Audio.Listed.{Shows, add_audio_message-get_chain_service}
use project_h_server.Tests.OneRow.{one_row, select_row, select_row-Selects, key_of}
use project_h_server.Tests.AudioData.{
  Shelf, rows, shelf, chats, row_of, rows-IsDatabase, shelf-IsMedia, shelf-MarksSeen,
}
use project_h_server.Tests.AudioTests.{
  never, tens, adding, at, no_messages, others, row, added, added_lem, told,
}

abbrev one_message : ℕ → ℕ → Option ChainRow
one_message = added.0.store.messages

not_true : same [] (codes "true") ≡ false
unfolding same
not_true = refl

added-Selects : Selects one_message (select_row 7 row)
added-Selects = select_row-Selects 7 row 57 refl

added-IsNewest : IsNewest one_message 7 5
added-IsNewest t x h = omega (arith, (key_of 7 row 7 t x h).1)

add_audio_message-get_chain_service_example :
    (m : Audio) × (signature : Bytes) × (ms : List MessageSchema) × (added.0.pushed
      ≡ message_of tens (adding true) m signature ∷ [])
    × (get_chain_service tens (select_row 7 row) 7 (some 9) (some (pos 3)) [] [] ≡ some ms)
    × Any (Shows 57 1 5 m) ms
add_audio_message-get_chain_service_example =
    add_audio_message-get_chain_service rows shelf never tens chats row_of rows-IsDatabase
      shelf-IsMedia (select_row 7 row) (adding true) (at no_messages) added 9 2 [] [] others
      added_lem told added-Selects (omega arith) added-IsNewest not_true not_true

-- The table once the message is heard.
abbrev hearing : GetCall
hearing = record { user_id = 2; chain_id = 7; seen = codes "false"; message_id = some 57 }

abbrev heard : Shelf
heard = mark_seen rows shelf never tens 2 7 57 added.0.store

heard-one_row : (c t : ℕ) → one_row 7 (seen_as true row) c t ≡ chats.messages heard c t
unfolding mark_seen
heard-one_row c t = ground arith

heard-Selects : Selects (chats.messages heard) (select_row 7 (seen_as true row))
heard-Selects =
    subst (λ table. Selects table (select_row 7 (seen_as true row))) (λ i c t. heard-one_row c t i)
      (select_row-Selects 7 (seen_as true row) 57 refl)

get_audio_message-seen_example :
    (get_audio_message rows shelf never tens hearing (at added.0.store) ≡ (
      (record (at added.0.store) { body = stream_response (1 ∷ 2 ∷ 3 ∷ []) }, false),
      some (mark_seen rows shelf never tens 2 7 57),
    ))
    × ((ms : List MessageSchema) × (get_chain_service tens
            (select_row 7 (seen_as true row))
            7
            (some 9)
            (some (pos 3))
            []
            []
          ≡ some ms)
        × Any (λ m. m ≡ record (shown tens row) { seen = true }) ms)
get_audio_message-seen_example =
    get_audio_message-seen rows shelf never tens chats shelf-MarksSeen hearing 57 (1 ∷ 2 ∷ 3 ∷ [])
      (at added.0.store) added.0.store row (select_row 7 (seen_as true row)) 9 2 [] [] refl refl
      refl refl refl refl added-IsNewest heard-Selects (omega arith) not_true not_true
