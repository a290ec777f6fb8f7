-- ===== src/Sage/Accounts/Keys.antt =====
-- The partitions of sage-halpin/server/auth.ts are different texts.
use Prim.Native.String.{String, ◌++◌}
use text.Mathlib.Text.{starts_with}
use text.Mathlib.TextPositions.{starts_with-append}
use aijoes_app.Prelude.{◌≢◌, ap, ◌∙◌, sym, true, false}
use aijoes_app.Sage.Accounts.{session_partition, accounts, throttles}

true_ne_false : true ≢ false
true_ne_false e = cc

pub session_partition-ne_accounts : (account_id : String) → session_partition account_id ≢ accounts
session_partition-ne_accounts account_id e = true_ne_false (
    sym (starts_with-append "sessions-" (account_id ++ "")) ∙ ap (λ t. starts_with t "sessions-") e)

pub session_partition-ne_throttles :
    (account_id : String) → session_partition account_id ≢ throttles
session_partition-ne_throttles account_id e = true_ne_false (
    sym (starts_with-append "sessions-" (account_id ++ "")) ∙ ap (λ t. starts_with t "sessions-") e)

pub accounts-ne_throttles : ◌≢◌ {A = String} accounts throttles
accounts-ne_throttles e = true_ne_false (ap (λ t. starts_with t "accounts") e)
