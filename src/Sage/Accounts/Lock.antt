-- ===== src/Sage/Accounts/Lock.antt =====
-- The lock after failed sign-ins of sage-halpin/server/auth.ts, over any store that keeps the laws of
-- `IsStore`.
use Prim.Native.String.{String}
use aijoes_app.Prelude.{
  ℕ, suc, ◌+◌, ◌-◌, ◌≤◌, ◌<◌, ◌≡◌, refl, ap, ◌∙◌, false, Option, none, some, get_or, List, [], ◌∷◌,
  All, length, if◌then◌else◌, arith, ltb, leb,
}
use aijoes_app.Sage.Store.{Store, IsStore}
use aijoes_app.Sage.Store.Places.{get-put_same, get-remove_same}
use aijoes_app.Sage.Accounts.{
  Crypto, Document, Throttle, throttles, as_throttle, locked_at, expire, strike, no_fails,
  account_row, lock_after, lock_for_ms, lock_window_ms, sign_in_locked_until, record_failed_sign_in,
  clear_failed_sign_ins,
}

-- A row of failures that are counted from the instant `start` on.
abbrev pub counting : ℕ → ℕ → Throttle
counting n start = record { fails = n; window_start = start; locked_until = 0 }

strike-counting :
    (n start t : ℕ)
    → t ≤ start + lock_window_ms
    → n < 9
    → strike t (expire t (counting n start)) ≡ counting (suc n) start
strike-counting n start t soon few =
    let inside : ltb lock_window_ms (t - start) ≡ false = ground arith in
    let more : leb lock_after (suc n) ≡ false = ground arith in rw (inside, more) refl

strike-locks :
    (start t : ℕ)
    → t ≤ start + lock_window_ms
    → strike t (expire t (counting 9 start))
      ≡ record { fails = 0; window_start = t; locked_until = t + lock_for_ms }
strike-locks start t soon =
    let inside : ltb lock_window_ms (t - start) ≡ false = ground arith in rw inside refl

module _ (crypto : Crypto) (S : Store Document) (store : IsStore S) where
  open S use {State, get}

  -- The sign-ins that failed for an address, one at each of the instants.
  abbrev pub fail_each : String → List ℕ → State → State
  fail_each email [] s = s
  fail_each email (t ∷ ts) s = fail_each email ts (record_failed_sign_in crypto S email t s)

  abbrev throttle_of : String → State → Option Throttle
  throttle_of email s = as_throttle (get throttles (account_row crypto S email) s)

  throttle_of-record_failed_sign_in :
      (email : String) (now : ℕ) (s : State)
      → throttle_of email (record_failed_sign_in crypto S email now s)
        ≡ some (strike now (expire now (get_or (throttle_of email s) (no_fails now))))
  unfolding record_failed_sign_in
  throttle_of-record_failed_sign_in email now s =
      ap as_throttle (get-put_same S store throttles (account_row crypto S email) _ s)

  fail_each-counting :
      (email : String) (start n : ℕ) (ts : List ℕ) (s : State)
      → All (λ t. t ≤ start + lock_window_ms) ts
      → n + length ts ≤ 9
      → throttle_of email s ≡ some (counting n start)
      → throttle_of email (fail_each email ts s) ≡ some (counting (n + length ts) start)
  fail_each-counting email start n [] s soon few is =
      is ∙ ap (λ k. some (counting k start)) (omega arith)
  fail_each-counting email start n (t ∷ ts) s soon few is =
      let next : throttle_of email (record_failed_sign_in crypto S email t s)
          ≡ some (counting (suc n) start) =
        throttle_of-record_failed_sign_in email t s
        ∙ rw is (ap some (strike-counting n start t soon.0 (omega arith))) in
      fail_each-counting email start (suc n) ts (record_failed_sign_in crypto S email t s) soon.1
        (omega arith) next
      ∙ ap (λ k. some (counting k start)) (omega arith)

  -- From an address without failures, nine failed sign-ins within fifteen minutes of the first do
  -- not lock it, and the tenth locks it for fifteen minutes, whenever it is asked. Where the failures
  -- are cleared after the ninth, the tenth does not lock it.
  pub sign_in_locks :
      (email : String) (start last : ℕ) (ts : List ℕ) (s : State)
      → throttle_of email s ≡ none
      → length ts ≡ 8
      → All (λ t. t ≤ start + lock_window_ms) ts
      → last ≤ start + lock_window_ms
      → (now : ℕ)
      → let nine = fail_each email (start ∷ ts) s in
        let ten = record_failed_sign_in crypto S email last nine in
        (sign_in_locked_until crypto S email now nine ≡ none)
        × (sign_in_locked_until crypto S email now ten
            ≡ (if ltb now (last + lock_for_ms) then some (last + lock_for_ms) else none))
        × (sign_in_locked_until crypto S email now (
              record_failed_sign_in crypto S email last (clear_failed_sign_ins crypto S email nine))
            ≡ none)
  unfolding sign_in_locked_until clear_failed_sign_ins
  sign_in_locks email start last ts s clean eight soon soon_last now =
      let first = record_failed_sign_in crypto S email start s in
      let one : throttle_of email first ≡ some (counting 1 start) =
        throttle_of-record_failed_sign_in email start s
        ∙ rw clean (ap some (strike-counting 0 start start (omega arith) (omega arith))) in
      let nine = fail_each email ts first in
      let counted : throttle_of email nine ≡ some (counting 9 start) =
        fail_each-counting email start 1 ts first soon (omega arith) one
        ∙ ap (λ k. some (counting k start)) (omega arith) in
      let ten = record_failed_sign_in crypto S email last nine in
      let locked : throttle_of email ten
          ≡ some (record { fails = 0; window_start = last; locked_until = last + lock_for_ms }) =
        throttle_of-record_failed_sign_in email last nine
        ∙ rw counted (ap some (strike-locks start last soon_last)) in
      let cleared = clear_failed_sign_ins crypto S email nine in
      let gone : throttle_of email cleared ≡ none =
        ap as_throttle (get-remove_same S store throttles (account_row crypto S email) nine) in
      let again : throttle_of email (record_failed_sign_in crypto S email last cleared)
          ≡ some (counting 1 last) =
        throttle_of-record_failed_sign_in email last cleared
        ∙ rw gone (ap some (strike-counting 0 last last (omega arith) (omega arith))) in
      (
        ap (locked_at now) counted ∙ ground arith,
        ap (locked_at now) locked,
        ap (locked_at now) again ∙ ground arith,
      )
