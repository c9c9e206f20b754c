-- ===== src/Accounts/Calls.antt =====
-- The calls on accounts that write (packages/db/memory-repository.mjs).
use bai_rui_cloud_agent_plat.Prelude.{List, String, [], ℕ, ◌∷◌}
use bai_rui_cloud_agent_plat.Accounts.{
  OrganizationInput, create_organization, Store, UserInput, create_user, update_user_role,
}
use bai_rui_cloud_agent_plat.Accounts.Agents.{
  AgentInput, AgentPatch, create_agent, RuntimeInput, update_agent, create_agent_runtime,
}

-- One of the calls that write, with the time and the identifier that it draws.
pub data AccountCall : Type 0 where
  add_organization : ℕ → String → OrganizationInput → AccountCall
  add_user : ℕ → String → UserInput → AccountCall
  change_role : String → String → AccountCall
  add_agent : ℕ → String → AgentInput → AccountCall
  change_agent : ℕ → String → AgentPatch → AccountCall
  add_runtime : ℕ → String → RuntimeInput → AccountCall

unfoldable pub run_call : (String → String) → AccountCall → Store → Store
unfolding create_organization create_user update_user_role create_agent update_agent
    create_agent_runtime
run_call lower (add_organization now fresh i) s = (create_organization now fresh i s).0
run_call lower (add_user now fresh i) s = (create_user lower now fresh i s).0
run_call lower (change_role id name) s = (update_user_role id name s).0
run_call lower (add_agent now fresh i) s = (create_agent now fresh i s).0
run_call lower (change_agent now id p) s = (update_agent now id p s).0
run_call lower (add_runtime now fresh i) s = (create_agent_runtime now fresh i s).0

unfoldable pub run_calls : (String → String) → List AccountCall → Store → Store
unfolding run_call
run_calls lower [] s = s
run_calls lower (c ∷ cs) s = run_calls lower cs (run_call lower c s)
