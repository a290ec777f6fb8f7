-- ===== src/Auth/Sessions.antt =====
-- src/lib/auth/sessions.ts: the table of sessions. The hash of a token is a parameter, and the bytes
-- that node:crypto draws are arguments; a token is a number, 0 where it is the empty string. The
-- clock is read once by an operation.
pub mod Resolve
use aijoes_app.Prelude.{
  ℕ, ◌+◌, ◌-◌, ◌*◌, Bool, true, false, ◌&&◌, not, Option, none, some, is_some, List, [], ◌∷◌, ◌++◌,
  map, filter, find?, length, leb, ltb, ◌==◌, if◌then◌else◌,
}
use aijoes_app.Auth.Roles.{Role}

abbrev pub session_ttl_hours : ℕ
session_ttl_hours = 12

abbrev pub sliding_refresh_minutes : ℕ
sliding_refresh_minutes = 30

pub data UserStatus : Type 0 where
  active disabled : UserStatus

pub record UserRow : Type 0 where
  pub id : ℕ
  pub email : ℕ
  pub name : ℕ
  pub role : Role
  pub status : UserStatus

pub record SessionRow : Type 0 where
  pub id : ℕ
  pub tenant_id : ℕ
  pub user_id : ℕ
  pub token_hash : ℕ
  pub csrf_token : ℕ
  pub created_at : ℕ
  pub expires_at : ℕ
  pub last_seen_at : ℕ
  pub revoked_at : Option ℕ

abbrev pub is_active : UserStatus → Bool
is_active active = true
is_active _ = false

-- The row that `issueSession` inserts.
unfoldable pub issue_session : (ℕ → ℕ) → ℕ → ℕ → ℕ → ℕ → ℕ → ℕ → List SessionRow → List SessionRow
issue_session hash user tenant token fresh csrf now rows =
    rows
    ++ record {
      id = fresh;
      tenant_id = tenant;
      user_id = user;
      token_hash = hash token;
      csrf_token = csrf;
      created_at = now;
      expires_at = now + session_ttl_hours * 3_600_000;
      last_seen_at = now;
      revoked_at = none;
    }
      ∷ []

-- What `resolveSession` returns: the row as it was read, and the columns of its user.
pub record ResolvedSession : Type 0 where
  pub session : SessionRow
  pub role : Role
  pub email : ℕ
  pub name : ℕ

abbrev pub has_hash : ℕ → SessionRow → Bool
has_hash h s = s.token_hash == h

abbrev pub user_of : ℕ → List UserRow → Option UserRow
user_of k users = find? (λ u. u.id == k) users

-- `FROM sessions s JOIN users u ON u.id = s.user_id WHERE s.token_hash = ?`, the first row.
unfoldable pub joined : List UserRow → ℕ → List SessionRow → Option (SessionRow × UserRow)
joined users h [] = none
joined users h (s ∷ rows) =
    let rest = joined users h rows in
    if has_hash h s
    then elim (user_of s.user_id users) [ none ↦ rest | some u ↦ some (s, u) ]
    else rest

-- `remaining < (SESSION_TTL_HOURS * 60 - SLIDING_REFRESH_MINUTES) * 60_000`
abbrev pub next_expiry : ℕ → ℕ → ℕ
next_expiry now expires =
    if ltb expires (now + (session_ttl_hours * 60 - sliding_refresh_minutes) * 60_000)
    then now + session_ttl_hours * 3_600_000
    else expires

abbrev pub touch_row : ℕ → SessionRow → SessionRow → SessionRow
touch_row now s r =
    if r.id == s.id
    then record r { last_seen_at = now; expires_at = next_expiry now s.expires_at }
    else r

unfoldable pub touch : ℕ → SessionRow → List SessionRow → List SessionRow
touch now s rows = map (touch_row now s) rows

abbrev pub live : ℕ → SessionRow → UserRow → Bool
live now s u = not (is_some s.revoked_at) && (is_active u.status && ltb now s.expires_at)

abbrev pub resolve_row :
    ℕ → Option (SessionRow × UserRow) → List SessionRow → Option ResolvedSession × List SessionRow
resolve_row now none rows = (none, rows)
resolve_row now (some (s, u)) rows =
    if live now s u
    then (
      some (record { session = s; role = u.role; email = u.email; name = u.name }),
      touch now s rows,
    )
    else (none, rows)

unfoldable pub resolve_session :
    (ℕ → ℕ) → ℕ → ℕ → List UserRow → List SessionRow → Option ResolvedSession × List SessionRow
resolve_session hash token now users rows =
    if token == 0 then (none, rows) else resolve_row now (joined users (hash token) rows) rows

abbrev pub revoke : ℕ → SessionRow → SessionRow
revoke now s = if is_some s.revoked_at then s else record s { revoked_at = some now }

abbrev pub revoke_hash : ℕ → ℕ → SessionRow → SessionRow
revoke_hash h now s = if has_hash h s then revoke now s else s

abbrev pub revoke_of : ℕ → ℕ → SessionRow → SessionRow
revoke_of user now s = if s.user_id == user then revoke now s else s

unfoldable pub revoke_session : (ℕ → ℕ) → ℕ → ℕ → List SessionRow → List SessionRow
revoke_session hash token now rows = map (revoke_hash (hash token) now) rows

unfoldable pub revoke_all_for_user : ℕ → ℕ → List SessionRow → List SessionRow
revoke_all_for_user user now rows = map (revoke_of user now) rows

unfoldable pub purge_expired_sessions : ℕ → List SessionRow → List SessionRow
purge_expired_sessions now rows = filter (λ s. leb now s.expires_at) rows
