-- ===== src/Access/Tests.antt =====
-- A reader who may acknowledge.
use wa_ops.Base.{◌≡◌, ◌≢◌, ◌↔◌, String, true, none, some, [], ◌∷◌}
use wa_ops.Errors.{returned}
use wa_ops.Access.{Permissions, can_activate}
use wa_ops.Access.Ambient.{TenantContext, user, done, authorize, can_activate-authorize_iff}

abbrev reader : Permissions
reader = "incidents.read" ∷ "incidents.ack" ∷ []

is_key : ◌≢◌ {A = String} "incidents.ack" ""
is_key e = cc

abbrev acknowledging : TenantContext
acknowledging = record {
  user_id = "u";
  tenant_id = "t";
  organization_scope = none;
  permissions = reader;
  entitlements = [];
  request_id = "r";
  actor_type = user;
}

can_activate-authorize_iff_example :
    (can_activate (some "incidents.ack") true (some reader) ≡ returned tt)
    ↔ (authorize "incidents.ack" (some acknowledging) ≡ done tt)
can_activate-authorize_iff_example =
    can_activate-authorize_iff "incidents.ack" (some acknowledging) is_key
