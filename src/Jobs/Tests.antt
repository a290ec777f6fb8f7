-- ===== src/Jobs/Tests.antt =====
-- The queue at concrete jobs, and instances of its theorems.
use aijoes_app.Prelude.{
  Option, ℕ, ap, sym, ◌+◌, ◌≤◌, ◌<◌, true, false, ◌≡◌, ◌==◌, arith, ◌⊎◌, refl, inl, inr, none, some,
  [], ◌∷◌, In,
}
use aijoes_app.Jobs.Queue.{
  JobType, JobRow, Jobs, pending, dead, get_job, enqueue, claim, claim_next, candidate, claimable,
  fail_job, analysis,
}
use aijoes_app.Jobs.Queue.Keys.{IsKeyed, Reached, empty, enqueued, claimed}
use aijoes_app.Jobs.Queue.Claims.{locked, claim-excludes, claim-stale}
use aijoes_app.Jobs.Queue.Life.{IsSound, Reached-IsSound, fail_job-retries}
use aijoes_app.Jobs.Runner.{Handler, tick, drain}
use aijoes_app.Jobs.Runner.Rounds.{Settled, tick-Settled, drain-stops}

abbrev waiting : JobRow
waiting = record {
  id = 7;
  tenant_id = 1;
  type = analysis;
  payload = 4;
  status = pending;
  attempts = 0;
  max_attempts = 3;
  run_after = 100;
  locked_at = none;
  locked_by = none;
  last_error = none;
  created_at = 100;
  updated_at = 100;
}

abbrev abandoned : JobRow
abandoned = locked 1 200 waiting

one-IsKeyed : (j : JobRow) → j.id ≡ 7 → IsKeyed (j ∷ [])
unfolding get_job
one-IsKeyed j e k (inl same) = let own : (j.id == j.id) ≡ true = ground arith in rw (same, own) refl
one-IsKeyed j e k (inr m) = absurd m

claim-excludes_example :
    let db' = (claim 1 200 waiting (waiting ∷ [])).1 in claim 2 201 waiting db' ≡ (none, db')
claim-excludes_example = claim-excludes 1 2 200 201 waiting (waiting ∷ []) refl

abbrev held_by_two : Jobs
held_by_two = waiting ∷ []

unused : get_job 7 [] ≡ none
unfolding get_job
unused = refl

abbrev queued : Jobs
queued = enqueue 1 analysis 4 none none 7 100 []

abbrev taken : Jobs
taken = (claim_next 2 200 queued).1

taken-Reached : Reached taken
taken-Reached = claimed 2 200 (enqueued 1 analysis 4 none none 7 100 empty unused)

here : In abandoned ((claim_next 1 200 queued).1)
unfolding enqueue claim_next candidate claim get_job
here = inl refl

Reached-IsSound_example : IsSound abandoned
Reached-IsSound_example =
    Reached-IsSound (claimed 1 200 (enqueued 1 analysis 4 none none 7 100 empty unused)) abandoned
      here

fail_job-retries_example :
    let (r, db') = fail_job 7 9 300 (abandoned ∷ []) in
    ((get_job 7 (abandoned ∷ []) ≡ none) × (r ≡ none) × (db' ≡ abandoned ∷ []))
    ⊎ ((j : JobRow) × (get_job 7 (abandoned ∷ []) ≡ some j)
        × ((j' : JobRow) × (r ≡ some j')
            × (get_job 7 db' ≡ some j')
            × (j'.last_error ≡ some 9)
            × (j'.locked_at ≡ none)
            × (j'.locked_by ≡ none)
            × (j'.attempts ≡ j.attempts)
            × (((j'.status ≡ dead) × (j.max_attempts ≤ j.attempts))
                ⊎ ((j'.status ≡ pending) × (j.attempts < j.max_attempts)))
            × (300 + 1000 ≤ j'.run_after)
            × (j'.run_after ≤ 300 + 300_000)))
fail_job-retries_example = fail_job-retries 7 9 300 (abandoned ∷ [])

abbrev handlers : JobType → Option Handler
handlers analysis = some (λ j db. (none, db))
handlers _ = none

abbrev nothing_left : Jobs
nothing_left = waiting ∷ []

handlers_leave : (j : JobRow) (f : Handler) (db : Jobs) → handlers j.type ≡ some f → (f j db).1 ≡ db
handlers_leave j f db e = of_type j.type e
  where
    after : Option Handler → Jobs
    after none = db
    after (some g) = (g j db).1

    none_some : none ≡ some f → ⊥
    none_some k = cc

    of_type : (t : JobType) → handlers t ≡ some f → (f j db).1 ≡ db
    of_type analysis k = ap (λ o. after o) (sym k)
    of_type _ k = absurd (none_some k)

tick-Settled_example :
    let (did, db') = tick handlers 2 200 nothing_left in
    ((did ≡ false)
      × (db' ≡ nothing_left)
      × ((j : JobRow) → In j nothing_left → claimable 200 j ≡ false))
    ⊎ ((did ≡ true)
        × ((c : JobRow) × In c nothing_left
            × (claimable 200 c ≡ true)
            × ((j : JobRow)
                → In j nothing_left
                → claimable 200 j ≡ true
                → c.run_after ≤ j.run_after)
            × Settled (handlers c.type) (locked 2 200 c) (claim_next 2 200 nothing_left).1 c db'))
tick-Settled_example =
    tick-Settled handlers (λ j f db e. ap (get_job j.id) (handlers_leave j f db e)) 2 200
      nothing_left (one-IsKeyed waiting refl)

drain-stops_example :
    let (processed, db') = drain handlers 2 (λ n. 200) 5 nothing_left in
    (processed ≤ 5)
    × ((processed ≡ 5)
        ⊎ ((left : ℕ) × (left < 5) × ((j : JobRow) → In j db' → claimable 200 j ≡ false)))
drain-stops_example =
    drain-stops handlers (λ j f db e. ap (get_job j.id) (handlers_leave j f db e)) 2
      (λ j f db e h. rw (handlers_leave j f db e) h) (λ n. 200) 5 nothing_left
      (one-IsKeyed waiting refl)

claim-stale_example :
    let (a, db') = claim 2 400_000 abandoned (abandoned ∷ []) in
    let (b, db'') = claim 3 400_001 abandoned db' in
    (a ≡ some (locked 2 400_000 abandoned))
    × (b ≡ some (locked 3 400_001 (locked 2 400_000 abandoned)))
claim-stale_example =
    claim-stale 2 3 400_000 400_001 abandoned (abandoned ∷ []) (one-IsKeyed abandoned refl)
      (inl refl) refl
