-- ===== src/Sage/Routes.antt =====
-- sage-halpin/server/routes/auth.ts: signing up, in and out, the change of the password and the end
-- of an account, for requests that `sameSite` lets through. An address is one that `normaliseEmail`
-- leaves as it is, and the tests of the fields (`isEmail`, the lengths, `passwordProblem`) are their
-- result, an argument. A request gets its random values as arguments.
pub mod SignIn
pub mod Password
use Prim.Native.String.{String}
use aijoes_app.Prelude.{ℕ, ◌+◌, Bool, true, false, Option, none, some, is_some, if◌then◌else◌}
use aijoes_app.Sage.Store.{Store}
use aijoes_app.Sage.Accounts.{
  Account, Crypto, Document, SessionClaim, session_ms, account_row, create_session, read_session,
  record_session, session_is_live, end_session, end_all_sessions, sign_in_locked_until,
  record_failed_sign_in, clear_failed_sign_ins, find_account, save_account, delete_account,
}

-- What a reply does to the session cookie.
pub data Cookie (T : Type 0) : Type 0 where
  kept cleared : Cookie T
  set_to : T → Cookie T

pub record Reply (T : Type 0) : Type 0 where
  pub status : ℕ
  pub cookie : Cookie T
  pub body : Option Account

abbrev pub plain : {T : Type 0} → ℕ → Reply T
plain n = record { status = n; cookie = kept; body = none }

-- The account behind the cookie of a request, and the claim of the cookie.
pub record Signed : Type 0 where
  pub me : Account
  pub claim : SessionClaim

module _ (crypto : Crypto) (S : Store Document) where
  open S use {State}
  open crypto use {Token, hash_password, verify_password}

  unfoldable pub start_session : Account → String → ℕ → State → Token × State
  start_session a sid now s = (
    create_session crypto S (account_row crypto S a.email) sid now,
    record_session crypto S a sid (now + session_ms) now s,
  )

  abbrev pub started : ℕ → Account → Token × State → Reply Token × State
  started status a (value, s) =
      (record { status = status; cookie = set_to value; body = some a }, s)

  abbrev pub signed_of : SessionClaim → Option Account → ℕ → State → Option Signed
  signed_of c none now s = none
  signed_of c (some a) now s =
      if session_is_live crypto S a c.s now s then some (record { me = a; claim = c }) else none

  abbrev pub signed_by : Option SessionClaim → ℕ → State → Option Signed
  signed_by none now s = none
  signed_by (some c) now s = signed_of c (find_account crypto S c.k s) now s

  unfoldable pub require_account : Option Token → ℕ → State → Option Signed
  require_account cookie now s = signed_by (read_session crypto S cookie now) now s

  -- The reply where `requireAccount` finds no account.
  abbrev pub session_ended : Option Token → ℕ → Reply Token
  session_ended cookie now = record {
    status = 401;
    cookie = if is_some (read_session crypto S cookie now) then cleared else kept;
    body = none;
  }

  unfoldable pub sign_up :
      String → String → String → Bool → String → String → ℕ → State → Reply Token × State
  sign_up name email password acceptable fresh sid now s =
      let created : Account = record {
        id = fresh;
        email = email;
        name = name;
        password_hash = hash_password password;
        created_at = now;
      } in
      if acceptable
      then if is_some (find_account crypto S (account_row crypto S email) s)
        then (plain 409, s)
        else started 201 created (start_session created sid now (save_account crypto S created s))
      else (plain 422, s)

  -- An empty address is none.
  abbrev pub account_of : Option String → State → Option Account
  account_of none s = none
  account_of (some email) s = find_account crypto S (account_row crypto S email) s

  abbrev pub is_locked : Option String → ℕ → State → Bool
  is_locked none now s = false
  is_locked (some email) now s = is_some (sign_in_locked_until crypto S email now s)

  abbrev pub failed_sign_in : Option String → ℕ → State → State
  failed_sign_in none now s = s
  failed_sign_in (some email) now s = record_failed_sign_in crypto S email now s

  abbrev pub cleared_sign_ins : Option String → State → State
  cleared_sign_ins none s = s
  cleared_sign_ins (some email) s = clear_failed_sign_ins crypto S email s

  abbrev pub check_password :
      Option String → String → Option Account → String → ℕ → State → Reply Token × State
  check_password email password none sid now s = (plain 401, failed_sign_in email now s)
  check_password email password (some a) sid now s =
      if verify_password password a.password_hash
      then started 200 a (start_session a sid now (cleared_sign_ins email s))
      else (plain 401, failed_sign_in email now s)

  unfoldable pub sign_in : Option String → String → String → ℕ → State → Reply Token × State
  sign_in email password sid now s =
      if is_locked email now s
      then (plain 429, s)
      else check_password email password (account_of email s) sid now s

  abbrev pub end_found : Option Account → SessionClaim → State → State
  end_found none c s = s
  end_found (some a) c s = end_session crypto S a c.s s

  abbrev pub end_of : Option SessionClaim → State → State
  end_of none s = s
  end_of (some c) s = end_found (find_account crypto S c.k s) c s

  unfoldable pub sign_out : Option Token → ℕ → State → Reply Token × State
  sign_out cookie now s = (
    record { status = 200; cookie = cleared; body = none },
    end_of (read_session crypto S cookie now) s,
  )

  abbrev pub cleared_reply : Reply Token
  cleared_reply = record { status = 200; cookie = cleared; body = none }

  -- The handler behind `requireAccount`, which answers itself where there is no account.
  abbrev pub for_account :
      Option Signed
      → (Account → State → Reply Token × State)
      → Option Token
      → ℕ
      → State
      → Reply Token × State
  for_account none handler cookie now s = (session_ended cookie now, s)
  for_account (some signed) handler cookie now s = handler signed.me s

  abbrev pub everywhere_of : Account → State → Reply Token × State
  everywhere_of me s = (cleared_reply, (end_all_sessions crypto S me none s).1)

  unfoldable pub sign_out_everywhere : Option Token → ℕ → State → Reply Token × State
  sign_out_everywhere cookie now s =
      for_account (require_account cookie now s) everywhere_of cookie now s

  abbrev pub with_password : String → Account → Account
  with_password chosen a = record a { password_hash = hash_password chosen }

  abbrev pub renew : Account → String → ℕ → State → Reply Token × State
  renew a sid now s =
      let (value, s') =
        start_session a sid now (end_all_sessions crypto S a none (save_account crypto S a s)).1 in
      (record { status = 200; cookie = set_to value; body = none }, s')

  abbrev pub change_password_of :
      String → String → Bool → String → ℕ → Account → State → Reply Token × State
  change_password_of current chosen acceptable sid now me s =
      if verify_password current me.password_hash
      then if acceptable then renew (with_password chosen me) sid now s else (plain 422, s)
      else (plain 401, record_failed_sign_in crypto S me.email now s)

  unfoldable pub change_password :
      Option Token → String → String → Bool → String → ℕ → State → Reply Token × State
  change_password cookie current chosen acceptable sid now s =
      for_account (require_account cookie now s)
        (change_password_of current chosen acceptable sid now) cookie now s

  abbrev pub delete_of : String → Account → State → Reply Token × State
  delete_of password me s =
      if verify_password password me.password_hash
      then (cleared_reply, delete_account crypto S me s)
      else (plain 401, s)

  unfoldable pub delete_me : Option Token → String → ℕ → State → Reply Token × State
  delete_me cookie password now s =
      for_account (require_account cookie now s) (delete_of password) cookie now s
