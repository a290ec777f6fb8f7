-- ===== src/Sage/Routes/Password.antt =====
-- `/auth/password`, `/auth/signout-everywhere` and `/account` of
-- sage-halpin/server/routes/auth.ts: which cookies are still taken for an account.
use Prim.Native.String.{String}
use aijoes_app.Prelude.{
  ℕ, ◌+◌, ◌<◌, ◌≡◌, ◌≢◌, refl, ap, ◌∙◌, sym, inl, inr, true, false, Option, none, some, Bool-cases,
  Option-cases,
}
use aijoes_app.Sage.Store.{Store, IsStore}
use aijoes_app.Sage.Store.Places.{get-put_same}
use aijoes_app.Sage.Accounts.{
  Account, Crypto, Document, SessionClaim, session_ms, session_partition, accounts, as_account,
  account, as_session, is_live, account_row, read_session, session_is_live, find_account,
  save_account, end_all_sessions, record_session,
}
use aijoes_app.Sage.Accounts.Keys.{session_partition-ne_accounts}
use aijoes_app.Sage.Accounts.Sessions.{
  end_all_sessions-live, get-end_all_sessions_elsewhere, session_is_live-steps,
}
use aijoes_app.Sage.Routes.{
  Signed, set_to, require_account, signed_by, signed_of, sign_out_everywhere, change_password,
  with_password, start_session,
}
use aijoes_app.Sage.Routes.SignIn.{IsSealed, start_session-require_account}

module _ (crypto : Crypto) (S : Store Document) (store : IsStore S) where
  open S use {State, get, put}
  open crypto use {Token, verify_password, hash_password, session_hash}
  open store use {IsValid, put-IsValid}

  -- A request is taken for an account only by a session of it that is alive.
  pub require_account-live :
      (cookie : Option Token) (now : ℕ) (s : State) (signed : Signed)
      → require_account crypto S cookie now s ≡ some signed
      → session_is_live crypto S signed.me signed.claim.s now s ≡ true
  unfolding require_account
  require_account-live cookie now s signed is =
      elim (Option-cases (read_session crypto S cookie now)) [
        | inl e ↦ absurd (none_some signed (sym (ap (λ c. signed_by crypto S c now s) e) ∙ is))
        | inr (c, e) ↦ by_claim c (sym (ap (λ c. signed_by crypto S c now s) e) ∙ is)
      ]
    where
      none_some : (x : Signed) → none ≡ some x → ⊥
      none_some x q = cc

      some_inj : (x y : Signed) → some x ≡ some y → x ≡ y
      some_inj x y q = cc

      by_account :
          (c : SessionClaim) (o : Option Account)
          → signed_of crypto S c o now s ≡ some signed
          → session_is_live crypto S signed.me signed.claim.s now s ≡ true
      by_account c none q = absurd (none_some signed q)
      by_account c (some a) q = elim (Bool-cases (session_is_live crypto S a c.s now s)) [
        | inl live ↦
            let own : some (record { me = a; claim = c }) ≡ some signed = sym (rw live refl) ∙ q in
            ap (λ x. session_is_live crypto S x.me x.claim.s now s) (sym (some_inj _ signed own))
            ∙ live
        | inr ended ↦
            let gone : none ≡ some signed = sym (rw ended refl) ∙ q in
            absurd (none_some signed gone)
      ]

      by_claim :
          (c : SessionClaim)
          → signed_by crypto S (some c) now s ≡ some signed
          → session_is_live crypto S signed.me signed.claim.s now s ≡ true
      by_claim c q = by_account c (find_account crypto S c.k s) q

  -- A session that is alive is one of the account with that id.
  session_is_live_id :
      (a b : Account) (sid : String) (now : ℕ) (s : State)
      → a.id ≡ b.id
      → session_is_live crypto S a sid now s ≡ session_is_live crypto S b sid now s
  unfolding session_is_live
  session_is_live_id a b sid now s e =
      ap (λ i. is_live now (as_session (get (session_partition i) (session_hash sid) s))) e

  -- After someone signs out everywhere, no cookie at all is taken for their account, at any later
  -- time.
  pub sign_out_everywhere-ends :
      (cookie cookie' : Option Token) (now later : ℕ) (s : State) (signed other : Signed)
      → IsValid s
      → require_account crypto S cookie now s ≡ some signed
      → require_account crypto S cookie' later (sign_out_everywhere crypto S cookie now s).1
        ≡ some other
      → other.me.id ≢ signed.me.id
  unfolding sign_out_everywhere
  sign_out_everywhere-ends cookie cookie' now later s signed other valid is taken = λ same.
      let ended = (end_all_sessions crypto S signed.me none s).1 in
      let left : (sign_out_everywhere crypto S cookie now s).1 ≡ ended = rw is refl in
      let taken' = sym (ap (require_account crypto S cookie' later) left) ∙ taken in
      let live = require_account-live cookie' later ended other taken' in
      let dead = end_all_sessions-live crypto S store signed.me none other.claim.s later s valid in
      true_ne_false
        (sym live ∙ session_is_live_id other.me signed.me other.claim.s later ended same ∙ dead)
    where
      true_ne_false : true ≡ false → ⊥
      true_ne_false q = cc

  -- Where what is sealed in a cookie is read back, a change of the password, with the right current
  -- one, to a new one that is accepted answers with a new cookie. That cookie is taken, until it
  -- expires, for the account with the new password, and no other session of the account is alive.
  pub change_password-ends :
      (sealed : IsSealed crypto) (cookie : Option Token) (current chosen sid other : String)
      (now later : ℕ) (s : State) (signed : Signed)
      → IsValid s
      → require_account crypto S cookie now s ≡ some signed
      → verify_password current signed.me.password_hash ≡ true
      → later < now + session_ms
      → session_hash sid ≢ session_hash other
      → let s' = (change_password crypto S cookie current chosen true sid now s).1 in
        let me = with_password crypto S chosen signed.me in
        (value : Token) × (again : Signed) × ((change_password crypto S cookie current chosen true
            sid now s).0
          ≡ record { status = 200; cookie = set_to value; body = none })
        × (require_account crypto S (some value) later s' ≡ some again)
        × (again.me ≡ me)
        × (session_is_live crypto S me other later s' ≡ false)
  unfolding change_password save_account find_account start_session record_session
  change_password-ends sealed cookie current chosen sid other now later s signed valid is right soon
        apart =
      let me = with_password crypto S chosen signed.me in
      let row = account_row crypto S me.email in
      let saved = save_account crypto S me s in
      let ended = (end_all_sessions crypto S me none saved).1 in
      let there : find_account crypto S row ended ≡ some me = ap as_account (
        get-end_all_sessions_elsewhere crypto S store me none saved accounts row
          (session_partition-ne_accounts me.id)
        ∙ get-put_same S store accounts row (account me) s) in
      let saved_valid = put-IsValid accounts row (account me) s valid in
      let quiet = end_all_sessions-live crypto S store me none other later saved saved_valid in
      let (_, _, untouched, _) =
        session_is_live-steps crypto S store me sid other (now + session_ms) now later ended
          apart in
      rw (is, right)
        (
          _,
          _,
          refl,
          start_session-require_account crypto S store sealed me sid now later ended there soon,
          refl,
          untouched ∙ quiet,
        )
