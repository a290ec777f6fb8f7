-- ===== src/Verification/Facts.antt =====
-- The connected facts of src/lib/db/repositories/facts.ts that a verification compares, and
-- `getFacts`. Amounts are whole pounds.
use aijoes_app.Prelude.{ℕ, ℤ, Option, none, some, List, [], ◌∷◌, ◌&&◌, if◌then◌else◌, ◌==◌}

pub record Sku : Type 0 where
  pub sku : ℕ
  pub unassigned : ℤ

pub record LicenceFacts : Type 0 where
  pub annual_licence_cost_gbp : ℤ
  pub licensed_users : ℤ
  pub licensed_disabled_users : ℤ
  pub skus : List Sku

pub record Spend : Type 0 where
  pub supplier : ℕ
  pub annual_spend : ℤ

pub record FinancialFacts : Type 0 where
  pub supplier_spend : List Spend
  pub software_subscriptions : List Spend

pub record ConnectedFacts : Type 0 where
  pub licence : Option LicenceFacts
  pub financial : Option FinancialFacts

-- The value of a row's `facts_json`, by its kind.
pub data Fact : Type 0 where
  licence : LicenceFacts → Fact
  financial : FinancialFacts → Fact
  crm : Fact

pub record FactRow : Type 0 where
  pub tenant_id : ℕ
  pub company_id : ℕ
  pub fact : Fact

abbrev read : ConnectedFacts → Fact → ConnectedFacts
read out (licence f) = record out { licence = some f }
read out (financial f) = record out { financial = some f }
read out crm = out

unfoldable pub read_rows : ℕ → ℕ → ConnectedFacts → List FactRow → ConnectedFacts
read_rows tenant company out [] = out
read_rows tenant company out (r ∷ rows) =
    read_rows tenant company
      (if r.tenant_id == tenant && r.company_id == company then read out r.fact else out) rows

unfoldable pub get_facts : ℕ → List FactRow → ℕ → ConnectedFacts
unfolding read_rows
get_facts tenant rows company =
    read_rows tenant company (record { licence = none; financial = none }) rows
