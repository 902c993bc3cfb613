-- ===== src/Tests/Gate.antt =====
-- The tenant gate and the tenant configuration at concrete inputs.
use license_service.Prelude.{
  ℕ, ◌≡◌, refl, Bool, true, false, Text, codes, str_eq, [], ◌∷◌, ◌++◌, none, some,
}
use license_service.Xcodes.{ok, err, plain, app_not_found}
use license_service.Store.Models.{Db, LicenseApp, app_tenant_key}
use license_service.Store.Rows.{first}
use license_service.Store.Sql.{append_unique}
use license_service.Store.App.{get_app_for_tenant, prefer_app, fallback_app, ensure_tenant_app}
use license_service.Tenant.{
  Caller, open_gate, gate_row, admit_again, after_insert, ensure_trusted, require,
}
use license_service.Tenant.Gate.{Passes, Grown, require-Passes, require_again, require_first}
use license_service.Admin.Scope
use license_service.Admin.Scope.{scope_from_ctx, actor_scope, visible_in_tenant}
use license_service.Admin.Tenants.{
  UpdateRequest, get_tenant_config, update_tenant_config, delete_tenant_config,
}
use license_service.Admin.Tenants.Hidden.{hidden_rows, is_hidden}
use license_service.System.Reachable.{no_rows}
use license_service.Tests.Libraries.{list_sql}
use license_service.Tests.Fixtures.{fair}

-- The key "ten_a" of a tenant.
abbrev ten_a : Text
ten_a = codes "ten_a"

abbrev any_key : Text → Bool
any_key _ = true

abbrev row : LicenseApp
row = record {
  id = 7;
  app_key = ten_a;
  name = ten_a;
  tenant_key = some ten_a;
  disabled = false;
  created_at = 999;
  updated_at = 999;
}

abbrev with_row : Db
with_row = record no_rows { apps = row ∷ [] }

abbrev admitted : Caller
admitted = record { tenant_key = ten_a; app = row }

first_call : require list_sql fair any_key (some ten_a) 7 no_rows ≡ (ok admitted, with_row)
unfolding require ensure_trusted after_insert admit_again open_gate gate_row get_app_for_tenant
    ensure_tenant_app prefer_app fallback_app first append_unique str_eq
first_call = refl

require-Passes_example :
    (tk : Text) × (some ten_a ≡ some tk)
    × (any_key tk ≡ true)
    × Passes tk admitted with_row
    × Grown no_rows with_row (gate_row list_sql fair 7 tk)
require-Passes_example = require-Passes list_sql fair any_key (some ten_a) 7 no_rows first_call

all_up : (n : ℕ) → fair.up n ≡ true
all_up n = refl

require_again_example :
    require list_sql fair any_key (some ten_a) 8 with_row ≡ (ok admitted, with_row)
require_again_example =
    require_again list_sql fair any_key (some ten_a) 7 8 no_rows all_up first_call

require_first_example : require list_sql fair any_key (some ten_a) 7 no_rows ≡ (
  ok (record { tenant_key = ten_a; app = gate_row list_sql fair 7 ten_a }),
  record no_rows { apps = [] ++ gate_row list_sql fair 7 ten_a ∷ [] },
)
unfolding first
require_first_example =
    require_first list_sql fair any_key b't' (codes "en_a") 7 no_rows all_up refl refl

-- The administrator of another tenant.
abbrev stranger : Scope.Caller
stranger = record { tenant = some (codes "ten_b"); actor = none }

abbrev rename : UpdateRequest
rename = record { tenant_key = ten_a; name = some (codes "x"); disabled = some true }

stranger_scope : scope_from_ctx stranger ≡ ok (codes "ten_b")
unfolding scope_from_ctx
stranger_scope = refl

row_found : get_app_for_tenant list_sql true true ten_a with_row ≡ ok (some row)
unfolding get_app_for_tenant prefer_app first str_eq
row_found = refl

row_hidden : is_hidden (codes "ten_b") (some row) ≡ true
unfolding visible_in_tenant app_tenant_key str_eq
row_hidden = refl

hidden_rows_example :
    (get_tenant_config list_sql fair stranger ten_a with_row
      ≡ (err (plain app_not_found), with_row))
    × (update_tenant_config list_sql fair stranger rename with_row
        ≡ (err (plain app_not_found), with_row))
    × (delete_tenant_config list_sql fair stranger ten_a with_row
        ≡ (err (plain app_not_found), with_row))
hidden_rows_example =
    hidden_rows list_sql fair stranger (codes "ten_b") with_row rename (some row) stranger_scope
      row_found row_hidden
