-- ===== src/Tests/AccountsTests.antt =====
-- The account services over tables that are functions.
use project_h_server.Prelude.{
  ◌≡◌, ◌≢◌, refl, [], ◌∷◌, none, some, Bool, true, false, codes, same, arith,
}
use project_h_server.Http.Reply.{World, invalid_request}
use project_h_server.Accounts.Password.{value, panics, decrypt}
use project_h_server.Accounts.Password.NoPanic.{decrypt-ne-panics}
use project_h_server.Accounts.Store.{Tables, Pending}
use project_h_server.Accounts.Register.{
  RegisterCall, fields, RegisterSchema, register, valid_username, to_lower, to_upper,
}
use project_h_server.Accounts.Login.{login, open_session}
use project_h_server.Accounts.Verify.{VerifyCall, verify_email}
use project_h_server.Accounts.Spec.{verifies, asked, completed, Holds, handle}
use project_h_server.Accounts.Spec.Refines.{Meets, handle-Meets, row_of}
use project_h_server.Accounts.Spec.Names.{IsConsistent, Owns, handle_all, handle_all-IsConsistent}
use project_h_server.Accounts.Created.{entered_as, register-verify}
use project_h_server.Accounts.Created.Replaced.{account_replaced}
use project_h_server.Tests.AccountsData.{
  logging_in, credentials, same_pw, tables, view, tables-IsDatabase, tables-Works, plain, sent,
  clock, decrypt_sent, never, sign, at, no_tables, no_tables-IsConsistent, registering,
  registration, verifying, verification, day, waiting, ann, with_ann,
}

decrypt-ne-panics_example : decrypt plain sent clock ≢ panics
decrypt-ne-panics_example = decrypt-ne-panics plain sent clock (omega arith)

handle_all-IsConsistent_example :
    IsConsistent (handle_all tables never sign plain same day (at no_tables)).store
    × Owns no_tables (handle_all tables never sign plain same day (at no_tables)).store
handle_all-IsConsistent_example =
    handle_all-IsConsistent tables view tables-IsDatabase never sign plain same day (at no_tables)
      no_tables-IsConsistent

handle-Meets_example :
    Holds
      (Meets view same (verifies verifying (fields verification)) waiting)
      (handle tables never sign plain same (verifies verifying (fields verification)) (at waiting))
handle-Meets_example =
    handle-Meets tables view tables-IsDatabase never sign plain same
      (verifies verifying (fields verification)) (at waiting)

valid_ann : valid_username (codes "ann") ≡ true
unfolding valid_username
valid_ann = refl

abbrev entered_ann : Pending
entered_ann = entered_as registration (codes "c0de") (codes "pw")

register-verify_example :
    (w1 w2 : World Tables) × (e1 e2 : Bool) × (register tables never plain registering
        (fields registration)
        (at no_tables)
      ≡ value (w1, e1))
    × (w1.mails ≡ (to_lower (codes "Ann@x"), to_upper (codes "c0de")) ∷ [])
    × (verify_email tables never verifying
          (fields (record { email = codes "Ann@x"; code = to_upper (codes "c0de") }))
          (at w1.store)
        ≡ value (w2, e2))
    × (w2.store
        ≡ completed
            (to_lower (codes "Ann@x"))
            (row_of verifying entered_ann)
            (asked (to_lower (codes "Ann@x")) entered_ann no_tables))
register-verify_example =
    register-verify tables never view tables-IsDatabase tables-Works plain registering registration
      (codes "c0de") (codes "pw") 112 (codes "w") (at no_tables) (at no_tables) verifying valid_ann
      refl refl refl decrypt_sent refl

abbrev intruding : RegisterSchema
intruding = record { username = codes "eve"; email = codes "Ann@x"; enc_password_hash = sent }

eve_free : with_ann.users_public (codes "eve") ≡ none
unfolding same
eve_free = refl

letters_free : with_ann.users (codes "Ann@x") ≡ none
unfolding same
letters_free = refl

lower_taken : with_ann.users (to_lower (codes "Ann@x")) ≡ some ann
unfolding to_lower same
lower_taken = refl

ann_owned : with_ann.users_public (codes "ann") ≡ some (codes "u1")
unfolding same
ann_owned = refl

valid_eve : valid_username (codes "eve") ≡ true
unfolding valid_username
valid_eve = refl

abbrev verifying_eve : VerifyCall
verifying_eve = record { user_id = codes "u2"; now = 1700000000000 }

-- Another password of the new account.
abbrev registering_eve : RegisterCall
registering_eve = record registering { hash_password = λ p. some (codes "px") }

other_pw : same (codes "px") (112 ∷ codes "w") ≡ false
unfolding same
other_pw = refl

account_replaced_example :
    (w1 w2 : World Tables) × (e1 e2 : Bool) × (register tables never plain registering_eve
        (fields intruding)
        (at with_ann)
      ≡ value (w1, e1))
    × (verify_email tables never verifying_eve
          (fields (record { email = codes "Ann@x"; code = to_upper (codes "c0de") }))
          (at w1.store)
        ≡ value (w2, e2))
    × (login tables never sign plain same logging_in (fields credentials) (at with_ann)
        ≡ value (open_session tables never sign plain same logging_in ann (at with_ann)))
    × (login tables never sign plain same logging_in (fields credentials) (at w2.store)
        ≡ value (invalid_request never (codes "Password") (codes "invalid") (at w2.store)))
    × (w2.store.users_public (codes "ann") ≡ some (codes "u1"))
account_replaced_example =
    account_replaced tables never view tables-IsDatabase tables-Works sign plain same logging_in
      credentials 112 (codes "w") decrypt_sent registering_eve intruding (codes "c0de") (codes "px")
      112 (codes "w") (at with_ann) (at with_ann) (at with_ann) verifying_eve ann valid_eve eve_free
      letters_free refl decrypt_sent refl refl lower_taken ann_owned same_pw other_pw
