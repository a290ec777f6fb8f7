-- ===== src/Sage/Accounts/Sessions.antt =====
-- The sessions of sage-halpin/server/auth.ts over any store that keeps the laws of `IsStore`: which
-- cookies are live after each operation.
use Prim.Native.String.{String}
use aijoes_app.Prelude.{
  ℕ, ◌≡◌, ◌≢◌, refl, ap, ◌∙◌, sym, inl, inr, Bool, true, false, not, ◌&&◌, Option, none, List, [],
  ◌∷◌, any, any-In, if◌then◌else◌, Bool-cases, Option-cases, arith, ltb, same_text, same_text_iff,
  same_text_refl,
}
use aijoes_app.Sage.Store.{Store, IsStore}
use aijoes_app.Sage.Store.Places.{
  get-put_same, get-put_row, get-remove_same, get-remove_row, get-remove_none, same_text_ne,
}
use aijoes_app.Sage.Accounts.{
  Account, Crypto, Document, session, as_session, is_live, is_kept, session_partition,
  record_session, session_is_live, end_session, end_each, hash_option, end_all_sessions, accounts,
  as_account, account_row, data_row, delete_account, find_account, read_account_data, unsealed,
}

abbrev pub listed_row : String → List (String × Document) → Bool
listed_row r rows = any (λ e. same_text e.0 r) rows

same_kept :
    (keep : Option String) (row r : String)
    → same_text row r ≡ true
    → is_kept keep row ≡ is_kept keep r
same_kept keep row r e = ap (is_kept keep) ((same_text_iff row r).0 e)

module _ (crypto : Crypto) (S : Store Document) (store : IsStore S) where
  open S use {State, get, put, list, remove}
  open crypto use {session_hash}
  open store use {IsValid, get-put, get-remove, In-list}

  -- What is found at a place after the loop: nothing where a row was listed and not kept.
  get-end_each :
      (p : String) (keep : Option String) (rows : List (String × Document)) (s : State)
      (p' r' : String)
      → get p' r' (end_each crypto S p keep rows s).1 ≡ (
          if same_text p p' && listed_row r' rows && not (is_kept keep r')
          then none
          else get p' r' s)
  get-end_each p keep [] s p' r' = ground arith
  get-end_each p keep ((row, v) ∷ rows) s p' r' = elim (Bool-cases (is_kept keep row)) [
    | inl e ↦ elim (Bool-cases (same_text row r')) [
      | inl t ↦
          let kept = sym (same_kept keep row r' t) ∙ e in
          rw (e, t) (get-end_each p keep rows s p' r' ∙ rw kept (ground arith))
      | inr t ↦ rw (e, t) (get-end_each p keep rows s p' r')
    ]
    | inr e ↦ elim (Bool-cases (same_text row r')) [
      | inl t ↦
          let kept = sym (same_kept keep row r' t) ∙ e in
          rw (e, t)
            (get-end_each p keep rows (remove p row s) p' r'
              ∙ rw (get-remove p row s p' r', kept, t) (ground arith))
      | inr t ↦
          rw (e, t)
            (get-end_each p keep rows (remove p row s) p' r'
              ∙ rw (get-remove p row s p' r', t) (ground arith))
    ]
  ]

  -- What is found in the sessions of an account after they are ended.
  pub get-end_all_sessions :
      (a : Account) (keep : Option String) (s : State) (r : String)
      → IsValid s
      → get (session_partition a.id) r (end_all_sessions crypto S a keep s).1
        ≡ (if is_kept (hash_option crypto S keep) r then get (session_partition a.id) r s else none)
  unfolding end_all_sessions
  get-end_all_sessions a keep s r valid =
      let p = session_partition a.id in
      let kept = hash_option crypto S keep in
      get-end_each p kept (list p s) s p r ∙ elim (Option-cases (get p r s)) [
        | inl none_there ↦ rw none_there (ground arith)
        | inr (v, there) ↦
            let shown =
              any-In (λ e. same_text e.0 r) (r, v) (list p s) ((In-list p r v s valid).1 there)
                (same_text_refl r) in
            rw (shown, same_text_refl p) (ground arith)
      ]

  abbrev live : Account → String → ℕ → State → Bool
  live a sid now s = session_is_live crypto S a sid now s

  -- Ending all sessions of an account but one leaves that one as it was and no other alive, whatever
  -- other sessions there were.
  pub end_all_sessions-live :
      (a : Account) (keep : Option String) (sid : String) (now : ℕ) (s : State)
      → IsValid s
      → live a sid now (end_all_sessions crypto S a keep s).1 ≡ (
          if is_kept (hash_option crypto S keep) (session_hash sid)
          then live a sid now s
          else false)
  unfolding session_is_live
  end_all_sessions-live a keep sid now s valid =
      ap (λ o. is_live now (as_session o)) (get-end_all_sessions a keep s (session_hash sid) valid)
      ∙ ground arith

  -- A session is alive from its start until its expiry or until it is ended, and neither touches a
  -- session of another id.
  pub session_is_live-steps :
      (a : Account) (sid other : String) (expires_at start now : ℕ) (s : State)
      → session_hash sid ≢ session_hash other
      → (live a sid now (record_session crypto S a sid expires_at start s) ≡ ltb now expires_at)
        × (live a sid now (end_session crypto S a sid s) ≡ false)
        × (live a other now (record_session crypto S a sid expires_at start s) ≡ live a other now s)
        × (live a other now (end_session crypto S a sid s) ≡ live a other now s)
  unfolding session_is_live record_session end_session
  session_is_live-steps a sid other expires_at start now s apart =
      let p = session_partition a.id in
      let row = session_hash sid in
      let row' = session_hash other in
      let started = session (record { created_at = start; expires_at = expires_at }) in
      let read : Option Document → Bool = λ o. is_live now (as_session o) in
      (
        ap read (get-put_same S store p row started s),
        ap read (get-remove_same S store p row s),
        ap read (get-put_row S store p row row' started s apart),
        ap read (get-remove_row S store p row row' s apart),
      )

  -- After an account is deleted, neither it nor its saved workspace is found, and none of its
  -- sessions is alive.
  pub delete_account-removes :
      (a : Account) (s : State)
      → IsValid s
      → let s' = delete_account crypto S a s in
        (find_account crypto S (account_row crypto S a.email) s' ≡ none)
        × (read_account_data crypto S a s' ≡ none)
        × ((sid : String) (now : ℕ) → live a sid now s' ≡ false)
  unfolding delete_account find_account read_account_data session_is_live
  delete_account-removes a s valid =
      let ended = (end_all_sessions crypto S a none s).1 in
      let without_data = remove accounts (data_row a.id) ended in
      let row = account_row crypto S a.email in
      (
        ap as_account (get-remove_same S store accounts row without_data),
        ap (unsealed crypto S) (
            get-remove_none S store accounts row accounts (data_row a.id) without_data
              (get-remove_same S store accounts (data_row a.id) ended)),
        λ sid now.
            let p = session_partition a.id in
            let r = session_hash sid in
            ap (λ o. is_live now (as_session o))
              (get-remove_none S store accounts row p r without_data (
                get-remove_none S store accounts (data_row a.id) p r ended
                  (get-end_all_sessions a none s r valid))),
      )

  -- The loop writes in its own partition only.
  pub get-end_all_sessions_elsewhere :
      (a : Account) (keep : Option String) (s : State) (p r : String)
      → session_partition a.id ≢ p
      → get p r (end_all_sessions crypto S a keep s).1 ≡ get p r s
  unfolding end_all_sessions
  get-end_all_sessions_elsewhere a keep s p r ne =
      get-end_each (session_partition a.id) (hash_option crypto S keep)
        (list (session_partition a.id) s) s p r
      ∙ rw (same_text_ne (session_partition a.id) p ne) refl
