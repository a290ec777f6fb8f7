-- ===== src/Sage/Routes/SignIn.antt =====
-- Signing in: `/auth/signin` of sage-halpin/server/routes/auth.ts and what a request is later taken
-- for, over any store that keeps the laws of `IsStore`.
use Prim.Native.String.{String}
use aijoes_app.Prelude.{
  ℕ, ◌+◌, ◌<◌, ◌≡◌, ◌≢◌, refl, ap, ◌∙◌, sym, inl, inr, true, false, Option, none, some, Bool-cases,
  Option-cases, arith, ltb, ◌⊎◌,
}
use aijoes_app.Sage.Store.{Store, IsStore}
use aijoes_app.Sage.Store.Places.{get-put_same, get-put_partition, get-remove_partition}
use aijoes_app.Sage.Accounts.{
  Account, Crypto, Document, SessionClaim, session_ms, session_partition, accounts, throttles,
  as_account, as_session, is_live, account_row, read_session, unexpired, record_session,
  session_is_live, find_account, sign_in_locked_until, record_failed_sign_in, clear_failed_sign_ins,
}
use aijoes_app.Sage.Accounts.Keys.{session_partition-ne_accounts, accounts-ne_throttles}
use aijoes_app.Sage.Routes.{
  Signed, kept, set_to, start_session, require_account, signed_by, signed_of, sign_in, account_of,
  is_locked, failed_sign_in,
}

-- What is sealed is read as it was.
abbrev pub IsSealed : Crypto → Type 0
IsSealed crypto = (c : SessionClaim) → crypto.unseal (crypto.seal c) ≡ some c

module _ (crypto : Crypto) (S : Store Document) (store : IsStore S) where
  open S use {State, get}
  open crypto use {Token, verify_password}

  ltb_of_lt : (a b : ℕ) → a < b → ltb a b ≡ true
  ltb_of_lt a b h = ground arith

  -- A session that was just started is what the request with its cookie is taken for.
  pub start_session-require_account :
      (sealed : IsSealed crypto) (a : Account) (sid : String) (now later : ℕ) (s : State)
      → find_account crypto S (account_row crypto S a.email) s ≡ some a
      → later < now + session_ms
      → let (value, s') = start_session crypto S a sid now s in
        require_account crypto S (some value) later s'
        ≡ some (record {
          me = a;
          claim = record { k = account_row crypto S a.email; s = sid; exp = now + session_ms };
        })
  unfolding start_session require_account find_account session_is_live record_session
  start_session-require_account sealed a sid now later s there soon =
      let k = account_row crypto S a.email in
      let c : SessionClaim = record { k = k; s = sid; exp = now + session_ms } in
      let row = crypto.session_hash sid in
      let s' = record_session crypto S a sid (now + session_ms) now s in
      let early = ltb_of_lt later (now + session_ms) soon in
      let claimed : read_session crypto S (some (crypto.seal c)) later ≡ some c =
        ap (unexpired later) (sealed c) ∙ rw early refl in
      let found : find_account crypto S k s' ≡ some a =
        ap as_account (
          get-put_partition S store (session_partition a.id) accounts row k _ s
            (session_partition-ne_accounts a.id))
        ∙ there in
      let live : session_is_live crypto S a sid later s' ≡ true =
        ap (λ o. is_live later (as_session o))
          (get-put_same S store (session_partition a.id) row _ s)
        ∙ early in
      ap (λ x. signed_by crypto S x later s') claimed
      ∙ ap (λ x. signed_of crypto S c x later s') found
      ∙ rw live refl

  -- With the right password of an account that is not locked, signing in gives a cookie that is
  -- taken for the account until it expires.
  pub sign_in-require_account :
      (sealed : IsSealed crypto) (a : Account) (password sid : String) (now later : ℕ) (s : State)
      → sign_in_locked_until crypto S a.email now s ≡ none
      → find_account crypto S (account_row crypto S a.email) s ≡ some a
      → verify_password password a.password_hash ≡ true
      → later < now + session_ms
      → (value : Token) × (signed : Signed) × ((sign_in crypto S
            (some a.email)
            password
            sid
            now
            s).0
          ≡ record { status = 200; cookie = set_to value; body = some a })
        × (require_account crypto S
              (some value)
              later
              (sign_in crypto S (some a.email) password sid now s).1
            ≡ some signed)
        × (signed.me ≡ a)
  unfolding sign_in clear_failed_sign_ins find_account
  sign_in-require_account sealed a password sid now later s free there right soon =
      let cleared = clear_failed_sign_ins crypto S a.email s in
      let row = account_row crypto S a.email in
      let still : find_account crypto S row cleared ≡ some a =
        ap as_account (
          get-remove_partition S store throttles accounts row row s
            (λ e. accounts-ne_throttles (sym e)))
        ∙ there in
      rw (free, there, right)
        (_, _, refl, start_session-require_account sealed a sid now later cleared still soon, refl)

  failed_sign_in-elsewhere :
      (email : Option String) (now : ℕ) (s : State) (p r : String)
      → throttles ≢ p
      → get p r (failed_sign_in crypto S email now s) ≡ get p r s
  unfolding record_failed_sign_in
  failed_sign_in-elsewhere none now s p r ne = refl
  failed_sign_in-elsewhere (some email) now s p r ne =
      get-put_partition S store throttles p (account_row crypto S email) r _ s ne

  -- A sign-in that is refused, because the address is locked or because the password is not that of
  -- its account, answers 429 or 401 with no cookie and changes no document but one about failed
  -- sign-ins; while the address is locked it is refused whatever the password, and changes nothing.
  pub sign_in-refused :
      (email : Option String) (password sid : String) (now : ℕ) (s : State)
      → let (reply, s') = sign_in crypto S email password sid now s in
        ((reply.status ≡ 200)
          × ((a : Account) × (account_of crypto S email s ≡ some a)
              × (verify_password password a.password_hash ≡ true)
              × (is_locked crypto S email now s ≡ false)))
        ⊎ ((reply.cookie ≡ kept)
            × ((p r : String) → throttles ≢ p → get p r s' ≡ get p r s)
            × (((reply.status ≡ 429) × (is_locked crypto S email now s ≡ true) × (s' ≡ s))
                ⊎ ((reply.status ≡ 401) × (is_locked crypto S email now s ≡ false))))
  unfolding sign_in
  sign_in-refused email password sid now s = elim (Bool-cases (is_locked crypto S email now s)) [
    | inl shut ↦ rw shut (inr (refl, (λ p r ne. refl), inl (refl, refl, refl)))
    | inr free ↦ elim (Option-cases (account_of crypto S email s)) [
      | inl unknown ↦
          rw (free, unknown) (inr (refl, failed_sign_in-elsewhere email now s, inr (refl, refl)))
      | inr (a, there) ↦ elim (Bool-cases (verify_password password a.password_hash)) [
        | inl right ↦ rw (free, there, right) (inl (refl, (a, refl, right, refl)))
        | inr wrong ↦
            rw (free, there, wrong)
              (inr (refl, failed_sign_in-elsewhere email now s, inr (refl, refl)))
      ]
    ]
  ]
