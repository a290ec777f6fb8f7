-- ===== src/Auth/Tests.antt =====
-- Roles, sessions and attempts at concrete values, and instances of their theorems.
use aijoes_app.Prelude.{
  ℕ, suc, ◌+◌, ◌≤◌, ◌<◌, true, false, ◌≡◌, ◌≢◌, ◌⊎◌, refl, none, some, [], ◌∷◌, In, arith,
}
use aijoes_app.Auth.Roles.{msp_admin}
use aijoes_app.Auth.Sessions.{
  UserRow, SessionRow, ResolvedSession, active, issue_session, user_of, joined, resolve_session,
  revoke_all_for_user, touch,
}
use aijoes_app.Auth.Sessions.Resolve.{
  resolve_session-live, revoke_all_for_user-ends, issue_session-resolves,
}
use aijoes_app.Auth.Attempts.{Attempt, lockout_state, record_attempt}
use aijoes_app.Auth.Attempts.Lockout.{lockout_state-counts}

-- A hash in which no two tokens meet.
abbrev hash : ℕ → ℕ
hash n = n + 1000

abbrev ada : UserRow
ada = record { id = 3; email = 31; name = 32; role = msp_admin; status = active }

abbrev session : SessionRow
session = record {
  id = 50;
  tenant_id = 1;
  user_id = 3;
  token_hash = 1007;
  csrf_token = 60;
  created_at = 100;
  expires_at = 43_200_100;
  last_seen_at = 100;
  revoked_at = none;
}

abbrev resolved : ResolvedSession
resolved = record { session = session; role = msp_admin; email = 31; name = 32 }

abbrev token : ℕ
token = 7

resolves : (resolve_session hash 7 200 (ada ∷ []) (session ∷ [])).0 ≡ some resolved
unfolding resolve_session joined touch
resolves = refl

resolve_session-live_example :
    (token ≢ 0)
    × In session (session ∷ [])
    × (session.token_hash ≡ hash token)
    × (session.revoked_at ≡ none)
    × (200 < 43_200_100)
    × ((u : UserRow) × (user_of 3 (ada ∷ []) ≡ some u) × (u.status ≡ active) × (u.role ≡ msp_admin))
resolve_session-live_example =
    resolve_session-live hash 7 200 (ada ∷ []) (session ∷ []) resolved resolves

still_resolves :
    (resolve_session hash 7 300 (ada ∷ []) (revoke_all_for_user 4 200 (session ∷ []))).0
    ≡ some resolved
unfolding resolve_session joined touch revoke_all_for_user
still_resolves = refl

revoke_all_for_user-ends_example : session.user_id ≢ 4
revoke_all_for_user-ends_example =
    revoke_all_for_user-ends hash 7 4 200 300 (ada ∷ []) (session ∷ []) resolved still_resolves

issue_session-resolves_example :
    let rows' = issue_session hash 3 1 7 50 60 100 [] in
    ((200 < 100 + 43_200_000)
      × ((r : ResolvedSession) × ((resolve_session hash 7 200 (ada ∷ []) rows').0 ≡ some r)
          × (r.session.user_id ≡ 3)
          × (r.session.tenant_id ≡ 1)
          × (r.session.csrf_token ≡ 60)
          × (r.role ≡ msp_admin)))
    ⊎ ((100 + 43_200_000 ≤ 200) × (resolve_session hash 7 200 (ada ∷ []) rows' ≡ (none, rows')))
issue_session-resolves_example =
    issue_session-resolves hash 3 1 7 50 60 100 200 (ada ∷ []) [] ada (λ e. cc) (λ r m. absurd m)
      refl refl

abbrev failed_once : Attempt
failed_once = record { key = 9; at = 500; succeeded = false }

lockout_state-counts_example :
    let s = lockout_state 9 600 (record_attempt 9 false 550 (failed_once ∷ [])) in
    ((lockout_state 9 600 (record_attempt 9 true 550 (failed_once ∷ []))).locked ≡ false)
    × (s.failures ≡ suc (lockout_state 9 600 (failed_once ∷ [])).failures)
    × (((s.locked ≡ false) × (s.failures < 8))
        ⊎ ((s.locked ≡ true) × (8 ≤ s.failures) × (1 ≤ s.retry_after_seconds)))
lockout_state-counts_example =
    lockout_state-counts 9 550 600 (failed_once ∷ []) (omega arith, tt) (omega arith)
