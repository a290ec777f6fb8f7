-- ===== src/Auth/Sessions/Resolve.antt =====
-- `resolveSession` of src/lib/auth/sessions.ts after issuing and revoking.
use aijoes_app.Prelude.{
  ℕ, ◌+◌, ◌≤◌, ◌<◌, ◌≢◌, true, false, ◌≡◌, refl, sym, ap, ◌∙◌, ◌⊎◌, inl, inr, Option, none, some,
  is_some, List, [], ◌∷◌, ◌++◌, map, arith, In, In-of_map, Bool-cases, Option-cases, ◌==◌, ltb,
}
use aijoes_app.Auth.Sessions.{
  UserRow, SessionRow, ResolvedSession, active, issue_session, joined, user_of, has_hash, live,
  resolve_row, resolve_session, revoke_hash, revoke_of, revoke_session, revoke_all_for_user,
  is_active,
}

pair_inj :
    (s : SessionRow) (u : UserRow) (s' : SessionRow) (u' : UserRow)
    → ◌≡◌ {A = Option (SessionRow × UserRow)} (some (s, u)) (some (s', u'))
    → (s ≡ s') × (u ≡ u')
pair_inj s u s' u' e = (ap (λ o. first o s) e, ap (λ o. second o u) e)
  where
    first : Option (SessionRow × UserRow) → SessionRow → SessionRow
    first none d = d
    first (some p) d = p.0

    second : Option (SessionRow × UserRow) → UserRow → UserRow
    second none d = d
    second (some p) d = p.1

-- A pair of the join.
joined-In :
    (users : List UserRow) (h : ℕ) (rows : List SessionRow) (s : SessionRow) (u : UserRow)
    → joined users h rows ≡ some (s, u)
    → In s rows × (s.token_hash ≡ h) × (user_of s.user_id users ≡ some u)
unfolding joined
joined-In users h [] s u e = cc
joined-In users h (r ∷ rows) s u e = elim (Bool-cases (has_hash h r)) [
  | inl t ↦ elim (Option-cases (user_of r.user_id users)) [
    | inl n ↦
        let (m, same, found) = joined-In users h rows s u (rw (t, n) at e) in (inr m, same, found)
    | inr (v, f) ↦
        let (x, y) = pair_inj r v s u (rw (t, f) at e) in
        let own : r.token_hash ≡ h = ground arith in
        (
          inl (sym x),
          ap (λ k. k.token_hash) (sym x) ∙ own,
          ap (λ k. user_of k.user_id users) (sym x) ∙ f ∙ ap some y,
        )
  ]
  | inr t ↦ let (m, same, found) = joined-In users h rows s u (rw t at e) in (inr m, same, found)
]

live-parts :
    (now : ℕ) (s : SessionRow) (u : UserRow)
    → live now s u ≡ true
    → (u.status ≡ active) × (s.revoked_at ≡ none) × (now < s.expires_at)
live-parts now s u h = ground arith

some_inj : (a b : ResolvedSession) → some a ≡ some b → a ≡ b
some_inj a b e = cc

-- A token resolves only to a session in the table under the token's hash that is not revoked and
-- not expired, and whose user is active; the role is the one that the user has now.
pub resolve_session-live :
    (hash : ℕ → ℕ) (token now : ℕ) (users : List UserRow) (rows : List SessionRow)
    (r : ResolvedSession)
    → (resolve_session hash token now users rows).0 ≡ some r
    → (token ≢ 0)
      × In r.session rows
      × (r.session.token_hash ≡ hash token)
      × (r.session.revoked_at ≡ none)
      × (now < r.session.expires_at)
      × ((u : UserRow) × (user_of r.session.user_id users ≡ some u)
          × (u.status ≡ active)
          × (u.role ≡ r.role))
unfolding resolve_session
resolve_session-live hash token now users rows r e = elim (Bool-cases (token == 0)) [
  | inl z ↦ absurd (none_some (rw z at e))
  | inr n ↦ elim (Option-cases (joined users (hash token) rows)) [
    | inl j ↦ absurd (none_some (rw (n, j) at e))
    | inr ((s, u), j) ↦ elim (Bool-cases (live now s u)) [
      | inr dead ↦ absurd (none_some (rw (n, j, dead) at e))
      | inl alive ↦
          let (m, same, found) = joined-In users (hash token) rows s u j in
          let (good, unrevoked, later) = live-parts now s u alive in
          let is : record { session = s; role = u.role; email = u.email; name = u.name } ≡ r =
            some_inj _ r (rw (n, j, alive) at e) in
          rw⁻¹ is (λ z. absurd (ground arith), m, same, unrevoked, later, (u, found, good, refl))
    ]
  ]
]
  where
    none_some : none ≡ some r → ⊥
    none_some k = cc

-- A row whose sessions were revoked does not resolve.
resolve_row-revoked :
    (later : ℕ) (s : SessionRow) (u : UserRow) (rows : List SessionRow)
    → is_some s.revoked_at ≡ true
    → resolve_row later (some (s, u)) rows ≡ (none, rows)
resolve_row-revoked later s u rows h = rw h refl

revoke_hash-revoked :
    (h now : ℕ) (x : SessionRow)
    → (revoke_hash h now x).token_hash ≡ h
    → is_some (revoke_hash h now x).revoked_at ≡ true
revoke_hash-revoked h now x e = ground arith

revoke_of-revoked :
    (user now : ℕ) (x : SessionRow)
    → (revoke_of user now x).user_id ≡ user
    → is_some (revoke_of user now x).revoked_at ≡ true
revoke_of-revoked user now x e = ground arith

-- Once a token is revoked it never resolves again, whatever the users are then.
pub revoke_session-ends :
    (hash : ℕ → ℕ) (token now later : ℕ) (users : List UserRow) (rows : List SessionRow)
    → let rows' = revoke_session hash token now rows in
      resolve_session hash token later users rows' ≡ (none, rows')
unfolding resolve_session revoke_session
revoke_session-ends hash token now later users rows =
    elim (Option-cases (joined users (hash token) (map (revoke_hash (hash token) now) rows))) [
      | inl j ↦ elim (Bool-cases (token == 0)) [ inl z ↦ rw z refl | inr n ↦ rw (n, j) refl ]
      | inr ((s, u), j) ↦
          let (m, same, _) =
            joined-In users (hash token) (map (revoke_hash (hash token) now) rows) s u j in
          let (x, _, e) = In-of_map (revoke_hash (hash token) now) s rows m in
          let ended : is_some s.revoked_at ≡ true =
            rw e (revoke_hash-revoked (hash token) now x (sym (ap (λ k. k.token_hash) e) ∙ same)) in
          elim (Bool-cases (token == 0)) [
            | inl z ↦ rw z refl
            | inr n ↦
                rw (n, j)
                  (resolve_row-revoked later s u (map (revoke_hash (hash token) now) rows) ended)
          ]
    ]

-- After all sessions of a user are revoked, no token resolves to that user.
pub revoke_all_for_user-ends :
    (hash : ℕ → ℕ) (token user now later : ℕ) (users : List UserRow) (rows : List SessionRow)
    (r : ResolvedSession)
    → (resolve_session hash token later users (revoke_all_for_user user now rows)).0 ≡ some r
    → r.session.user_id ≢ user
unfolding revoke_all_for_user
revoke_all_for_user-ends hash token user now later users rows r e same =
    let (_, m, _, unrevoked, _, _) =
      resolve_session-live hash token later users (revoke_all_for_user user now rows) r e in
    let (x, _, i) = In-of_map (revoke_of user now) r.session rows m in
    let ended : is_some r.session.revoked_at ≡ true =
      rw i (revoke_of-revoked user now x (sym (ap (λ k. k.user_id) i) ∙ same)) in
    absurd (ground arith)

joined-append :
    (users : List UserRow) (h : ℕ) (rows : List SessionRow) (s : SessionRow) (u : UserRow)
    → ((r : SessionRow) → In r rows → r.token_hash ≢ h)
    → s.token_hash ≡ h
    → user_of s.user_id users ≡ some u
    → joined users h (rows ++ s ∷ []) ≡ some (s, u)
unfolding joined
joined-append users h [] s u free own found =
    let hit : has_hash h s ≡ true = ground arith in rw (hit, found) refl
joined-append users h (r ∷ rows) s u free own found =
    let miss : has_hash h r ≡ false = other r (free r (inl refl)) in
    rw miss (joined-append users h rows s u (λ x m. free x (inr m)) own found)
  where
    other : (r : SessionRow) → r.token_hash ≢ h → has_hash h r ≡ false
    other r ne = ground arith

-- A session that is issued to an active user under a token whose hash is not in the table resolves
-- to that user and tenant for twelve hours, and after that no longer, unless it was used.
pub issue_session-resolves :
    (hash : ℕ → ℕ) (user tenant token fresh csrf now later : ℕ) (users : List UserRow)
    (rows : List SessionRow) (u : UserRow)
    → token ≢ 0
    → ((r : SessionRow) → In r rows → r.token_hash ≢ hash token)
    → user_of user users ≡ some u
    → u.status ≡ active
    → let rows' = issue_session hash user tenant token fresh csrf now rows in
      ((later < now + 43_200_000)
        × ((r : ResolvedSession) × ((resolve_session hash token later users rows').0 ≡ some r)
            × (r.session.user_id ≡ user)
            × (r.session.tenant_id ≡ tenant)
            × (r.session.csrf_token ≡ csrf)
            × (r.role ≡ u.role)))
      ⊎ ((now + 43_200_000 ≤ later)
          × (resolve_session hash token later users rows' ≡ (none, rows')))
unfolding resolve_session issue_session
issue_session-resolves hash user tenant token fresh csrf now later users rows u some_token free
      found good =
    let nonzero : (token == 0) ≡ false = ground arith in
    let ready : is_active u.status ≡ true = rw good refl in
    let issued : SessionRow = record {
      id = fresh;
      tenant_id = tenant;
      user_id = user;
      token_hash = hash token;
      csrf_token = csrf;
      created_at = now;
      expires_at = now + 43_200_000;
      last_seen_at = now;
      revoked_at = none;
    } in
    let j = joined-append users (hash token) rows issued u free refl found in
    elim (Bool-cases (ltb later (now + 43_200_000))) [
      | inl t ↦ inl (ground arith, rw (nonzero, j, ready, t) (_, refl, refl, refl, refl, refl))
      | inr f ↦ inr (ground arith, rw (nonzero, j, ready, f) refl)
    ]
