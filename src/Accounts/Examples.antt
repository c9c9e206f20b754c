-- ===== src/Accounts/Examples.antt =====
-- Users on a small store (packages/db/memory-repository.mjs).
use bai_rui_cloud_agent_plat.Prelude.{List, String, [], map, none, refl, values, ◌∷◌, ◌≡◌}
use bai_rui_cloud_agent_plat.Accounts.{UserInput, Store}
use bai_rui_cloud_agent_plat.Accounts.Calls.{add_user, change_role, AccountCall, run_calls}

abbrev an_input : UserInput
an_input = record {
  id = none;
  organization_id = "org";
  email = "a@b";
  display_name = "A";
  password_hash = "h";
  role = none;
  status = none;
}

abbrev nobody : Store
nobody = record { organizations = []; users = []; agents = []; runtimes = [] }

-- An address that is in lower case already.
abbrev as_is : String → String
as_is s = s

abbrev twice : List AccountCall
twice = add_user 1 "u1" an_input ∷ add_user 2 "u2" an_input ∷ change_role "u1" "admin" ∷ []

one_user : map (λ u. u.id) (values (run_calls as_is twice nobody).users) ≡ "u1" ∷ []
unfolding run_calls
one_user = refl
