-- ===== src/Auth/Examples.antt =====
-- Authorization on concrete principals: tests, and the theorems at these values.
use bai_rui_cloud_agent_plat.Prelude.{◌≡◌, refl, some, true, false, ◌↔◌}
use bai_rui_cloud_agent_plat.Auth.Authorization.{Principal, Resource, can}
use bai_rui_cloud_agent_plat.Auth.Scope.{IsAdmitted, as_role, can_iff}

abbrev ada : Principal
ada = record { user_id = "u1"; organization_id = "o1"; role = "user" }

abbrev own : Resource
own = record { organization_id = some "o1"; user_id = some "u1" }

abbrev of_another : Resource
of_another = record { organization_id = some "o1"; user_id = some "u2" }

own_test : can (some ada) "agent:read" own ≡ true
unfolding can
own_test = refl

other_test : can (some ada) "agent:read" of_another ≡ false
unfolding can
other_test = refl

admin_test : can (some (as_role "org_admin" ada)) "agent:read" of_another ≡ true
unfolding can
admin_test = refl

unknown_test : can (some (as_role "root" ada)) "agent:read" own ≡ false
unfolding can
unknown_test = refl

can_iff_example : (can (some ada) "agent:read" own ≡ true) ↔ IsAdmitted ada "agent:read" own
can_iff_example = can_iff ada "agent:read" own
