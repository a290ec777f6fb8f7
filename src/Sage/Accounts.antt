-- ===== src/Sage/Accounts.antt =====
-- sage-halpin/server/auth.ts over any store: accounts, sessions, and the lock after failed
-- sign-ins. The hashes, signatures and ciphers of node:crypto are a parameter. An instant is its
-- number of milliseconds.
pub mod Keys
pub mod Sessions
pub mod Lock
use Prim.Native.String.{String}
use aijoes_app.Prelude.{
  ℕ, suc, ◌+◌, ◌*◌, ◌-◌, Bool, true, false, not, ◌&&◌, Option, none, some, get_or, is_some, List,
  [], ◌∷◌, ltb, leb, if◌then◌else◌, join, same_text,
}
use aijoes_app.Sage.Store.{Store}

pub record Account : Type 0 where
  pub id : String
  pub email : String
  pub name : String
  pub password_hash : String
  pub created_at : ℕ

pub record SessionRecord : Type 0 where
  pub created_at : ℕ
  pub expires_at : ℕ

pub record Throttle : Type 0 where
  pub fails : ℕ
  pub window_start : ℕ
  pub locked_until : ℕ

pub record SessionClaim : Type 0 where
  pub k : String
  pub s : String
  pub exp : ℕ

-- What the source keeps in the store: each row is read as the type that it was written with.
pub data Document : Type 0 where
  account : Account → Document
  session : SessionRecord → Document
  throttle : Throttle → Document
  sealed : String → ℕ → Document

abbrev pub as_account : Option Document → Option Account
as_account (some (account a)) = some a
as_account _ = none

abbrev pub as_session : Option Document → Option SessionRecord
as_session (some (session r)) = some r
as_session _ = none

abbrev pub as_throttle : Option Document → Option Throttle
as_throttle (some (throttle t)) = some t
as_throttle _ = none

-- node:crypto: the digest of a normalised address and of a session's id, the signed text of a claim
-- (a `Token`) and how it is read, the encryption of a saved workspace, and the hash of a password with its
-- check.
pub record Crypto : Type 1 where
  pub Token : Type 0
  pub address_hash : String → String
  pub session_hash : String → String
  pub seal : SessionClaim → Token
  pub unseal : Token → Option SessionClaim
  pub encrypt : String → String
  pub decrypt : String → Option String
  pub hash_password : String → String
  pub verify_password : String → String → Bool

abbrev pub accounts : String
accounts = "accounts"

abbrev pub throttles : String
throttles = "throttle"

abbrev pub session_days : ℕ
session_days = 14

abbrev pub session_ms : ℕ
session_ms = session_days * 24 * 60 * 60 * 1_000

abbrev pub lock_after : ℕ
lock_after = 10

abbrev pub lock_window_ms : ℕ
lock_window_ms = 15 * 60 * 1_000

abbrev pub lock_for_ms : ℕ
lock_for_ms = 15 * 60 * 1_000

abbrev pub session_partition : String → String
session_partition account_id = join ("sessions-" ∷ account_id ∷ [])

abbrev pub data_row : String → String
data_row account_id = join ("data-" ∷ account_id ∷ [])

abbrev pub locked_at : ℕ → Option Throttle → Option ℕ
locked_at now none = none
locked_at now (some t) = if ltb now t.locked_until then some t.locked_until else none

abbrev pub expire : ℕ → Throttle → Throttle
expire now t =
    if ltb lock_window_ms (now - t.window_start)
    then record t { fails = 0; window_start = now }
    else t

abbrev pub strike : ℕ → Throttle → Throttle
strike now t =
    if leb lock_after (suc t.fails)
    then record { fails = 0; window_start = now; locked_until = now + lock_for_ms }
    else record t { fails = suc t.fails }

abbrev pub no_fails : ℕ → Throttle
no_fails now = record { fails = 0; window_start = now; locked_until = 0 }

abbrev pub is_live : ℕ → Option SessionRecord → Bool
is_live now none = false
is_live now (some r) = ltb now r.expires_at

abbrev pub is_kept : Option String → String → Bool
is_kept none row = false
is_kept (some keep) row = same_text row keep

abbrev pub unexpired : ℕ → Option SessionClaim → Option SessionClaim
unexpired now none = none
unexpired now (some c) = if ltb now c.exp then some c else none

module _ (crypto : Crypto) (S : Store Document) where
  open S use {State, get, put, list, remove}
  open crypto use {Token, address_hash, session_hash, seal, unseal, encrypt, decrypt}

  abbrev pub account_row : String → String
  account_row email = join ("a-" ∷ address_hash email ∷ [])

  abbrev pub create_session : String → String → ℕ → Token
  create_session account_row_key sid now =
      seal (record { k = account_row_key; s = sid; exp = now + session_ms })

  abbrev pub read_session : Option Token → ℕ → Option SessionClaim
  read_session none now = none
  read_session (some value) now = unexpired now (unseal value)

  unfoldable pub record_session : Account → String → ℕ → ℕ → State → State
  record_session a sid expires_at now s =
      put (session_partition a.id) (session_hash sid)
        (session (record { created_at = now; expires_at = expires_at })) s

  unfoldable pub session_is_live : Account → String → ℕ → State → Bool
  session_is_live a sid now s =
      is_live now (as_session (get (session_partition a.id) (session_hash sid) s))

  unfoldable pub end_session : Account → String → State → State
  end_session a sid s = remove (session_partition a.id) (session_hash sid) s

  -- The loop over the rows that were listed; the number of rows that it removed.
  abbrev pub end_each : String → Option String → List (String × Document) → State → ℕ × State
  end_each p keep [] s = (0, s)
  end_each p keep ((row, _) ∷ rows) s =
      let kept = is_kept keep row in
      let (ended, s') = end_each p keep rows (if kept then s else remove p row s) in
      (if kept then ended else suc ended, s')

  abbrev pub hash_option : Option String → Option String
  hash_option none = none
  hash_option (some sid) = some (session_hash sid)

  unfoldable pub end_all_sessions : Account → Option String → State → ℕ × State
  end_all_sessions a keep_sid s =
      end_each (session_partition a.id) (hash_option keep_sid) (list (session_partition a.id) s) s

  unfoldable pub sign_in_locked_until : String → ℕ → State → Option ℕ
  sign_in_locked_until email now s =
      locked_at now (as_throttle (get throttles (account_row email) s))

  unfoldable pub record_failed_sign_in : String → ℕ → State → State
  record_failed_sign_in email now s =
      let t = get_or (as_throttle (get throttles (account_row email) s)) (no_fails now) in
      put throttles (account_row email) (throttle (strike now (expire now t))) s

  unfoldable pub clear_failed_sign_ins : String → State → State
  clear_failed_sign_ins email s = remove throttles (account_row email) s

  unfoldable pub find_account : String → State → Option Account
  find_account row_key s = as_account (get accounts row_key s)

  unfoldable pub save_account : Account → State → State
  save_account a s = put accounts (account_row a.email) (account a) s

  -- A missing row and one that cannot be decrypted read as no data.
  abbrev pub unsealed : Option Document → Option String
  unsealed (some (sealed text _)) = decrypt text
  unsealed _ = none

  unfoldable pub read_account_data : Account → State → Option String
  read_account_data a s = unsealed (get accounts (data_row a.id) s)

  unfoldable pub write_account_data : Account → String → ℕ → State → State
  write_account_data a data_text now s =
      put accounts (data_row a.id) (sealed (encrypt data_text) now) s

  unfoldable pub delete_account : Account → State → State
  delete_account a s =
      remove accounts (account_row a.email)
        (remove accounts (data_row a.id) (end_all_sessions a none s).1)
