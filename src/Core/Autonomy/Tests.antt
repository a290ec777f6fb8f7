-- ===== src/Core/Autonomy/Tests.antt =====
-- Runs of the autonomy policy at concrete grants, and instances of its theorems.
use aijoes_app.Prelude.{
  ◌≤◌, ◌<◌, pos, ◌≤ℤ◌, true, false, ◌≡◌, ◌⊎◌, inl, inr, refl, some, none, List, [], ◌∷◌, arith, In,
}
use aijoes_app.Core.Autonomy.{
  AutonomyGrant, ActionRequest, observe, prepare, execute, level_number, low, medium, high,
  risk_order, specificity, resolve_autonomy, halt_all, over_threshold, governing, decide_under,
  applicable, precedes, halt_grant,
}
use aijoes_app.Core.Autonomy.Policy.{
  IsInForce, resolve_autonomy-IsInForce, resolve_autonomy-may_execute,
}
use aijoes_app.Core.Autonomy.Halt.{resolve_autonomy-halt_all}

-- Tenant 1 delegates everything at PREPARE, and action 7 to user 4 at EXECUTE up to 500.
abbrev tenant_wide : AutonomyGrant
tenant_wide = record {
  id = 10;
  tenant_id = 1;
  user_id = none;
  action_type = none;
  capability_id = none;
  level = prepare;
  monetary_threshold = pos 1000;
  max_risk = high;
  expires_at = none;
}

abbrev for_user : AutonomyGrant
for_user = record {
  id = 11;
  tenant_id = 1;
  user_id = some 4;
  action_type = some 7;
  capability_id = none;
  level = execute;
  monetary_threshold = pos 500;
  max_risk = medium;
  expires_at = some 90;
}

abbrev grants : List AutonomyGrant
grants = tenant_wide ∷ for_user ∷ []

abbrev request : ActionRequest
request = record {
  tenant_id = 1;
  user_id = 4;
  action_type = 7;
  capability_id = 2;
  monetary_impact = pos 200;
  risk = low;
  external = true;
}

policy : Unit {0}
unfolding resolve_autonomy governing decide_under applicable precedes specificity halt_all
    halt_grant
policy = tt

delegated_run : (resolve_autonomy request grants 50).may_execute ≡ true
unfolding policy
delegated_run = refl

-- A threshold that is exceeded drops the action to PREPARE.
threshold_run :
    (resolve_autonomy (record request { monetary_impact = pos 501 }) grants 50).reason
    ≡ over_threshold (pos 501) (pos 500)
unfolding policy
threshold_run = refl

-- Once the specific grant has expired the tenant-wide one governs.
expired_run : (resolve_autonomy request grants 91).grant_id ≡ some 10
unfolding policy
expired_run = refl

resolve_autonomy-IsInForce_example :
    (g : AutonomyGrant) × In g grants
    × IsInForce request 50 g
    × (3 ≤ level_number g.level)
    × (pos 200 ≤ℤ g.monetary_threshold)
    × (risk_order low ≤ risk_order g.max_risk)
    × ((h : AutonomyGrant)
        → In h grants
        → IsInForce request 50 h
        → (specificity h < specificity g)
          ⊎ ((specificity h ≡ specificity g) × (level_number g.level ≤ level_number h.level)))
resolve_autonomy-IsInForce_example = resolve_autonomy-IsInForce request grants 50 delegated_run

abbrev only_user : List AutonomyGrant
only_user = for_user ∷ []

for_user-IsInForce : IsInForce request 50 for_user
for_user-IsInForce = record {
  tenant = refl;
  user = inr refl;
  action = inr refl;
  capability = inl refl;
  unexpired = inr (90, refl, omega arith);
}

for_user-enough :
    (h : AutonomyGrant)
    → In h only_user
    → IsInForce request 50 h
    → (3 ≤ level_number h.level)
      × (pos 200 ≤ℤ h.monetary_threshold)
      × (risk_order low ≤ risk_order h.max_risk)
for_user-enough h (inl e) k = rw e (omega arith, omega arith, omega arith)
for_user-enough h (inr m) k = absurd m

resolve_autonomy-may_execute_example : (resolve_autonomy request only_user 50).may_execute ≡ true
resolve_autonomy-may_execute_example =
    resolve_autonomy-may_execute request only_user 50 for_user (inl refl) for_user-IsInForce
      for_user-enough

resolve_autonomy-halt_all_example :
    let d = resolve_autonomy request (halt_all grants (some 1)) 50 in
    (d.level ≡ observe) × (d.may_execute ≡ false)
resolve_autonomy-halt_all_example = resolve_autonomy-halt_all (some 1) request grants 50 (inr refl)
