-- ===== src/Records/Data.antt =====
-- What is kept of authorizations, runs, bookmarks and grants, and the inputs of the calls on them
-- (packages/db/memory-repository.mjs).
use bai_rui_cloud_agent_plat.Json.{Value}
use bai_rui_cloud_agent_plat.Prelude.{Bool, List, Option, String, ℕ}

pub record Authorization : Type 0 where
  pub id : String
  pub organization_id : String
  pub user_id : String
  pub agent_id : String
  pub service : String
  pub label : String
  pub auth_type : String
  pub endpoint_url : Option String
  pub credential_envelope : Option Value
  pub credential_hint : Option String
  pub metadata : Value
  pub status : String
  pub last_error_code : Option String
  pub last_used_at : Option ℕ
  pub created_at : ℕ
  pub updated_at : ℕ

pub record AuthorizationInput : Type 0 where
  pub id : Option String
  pub organization_id : String
  pub user_id : String
  pub agent_id : String
  pub service : String
  pub label : String
  pub auth_type : String
  pub endpoint_url : Option String
  pub credential_envelope : Option Value
  pub credential_hint : Option String
  pub metadata : Option Value

pub record AgentRun : Type 0 where
  pub id : String
  pub organization_id : String
  pub user_id : String
  pub agent_id : String
  pub parent_run_id : Option String
  pub input_text : String
  pub model : Option String
  pub status : String
  pub last_error : Option String
  pub created_at : ℕ
  pub updated_at : ℕ
  pub completed_at : Option ℕ

pub record RunInput : Type 0 where
  pub id : String
  pub organization_id : String
  pub user_id : String
  pub agent_id : String
  pub parent_run_id : Option String
  pub input_text : String
  pub model : Option String
  pub status : Option String
  pub last_error : Option String
  pub completed_at : Option ℕ

-- `none` in `last_error` and `completed_at` is `undefined`; `some none` is `null`.
pub record RunUpdate : Type 0 where
  pub id : String
  pub organization_id : String
  pub user_id : String
  pub agent_id : String
  pub status : Option String
  pub last_error : Option (Option String)
  pub completed_at : Option (Option ℕ)

pub record Bookmark : Type 0 where
  pub organization_id : String
  pub user_id : String
  pub agent_id : String
  pub hotspot_item_id : String
  pub created_at : ℕ

pub record BookmarkInput : Type 0 where
  pub organization_id : String
  pub user_id : String
  pub agent_id : String
  pub hotspot_item_id : String
  pub bookmarked : Bool

pub record Grant : Type 0 where
  pub id : String
  pub organization_id : String
  pub grantee_user_id : String
  pub permission : String
  pub scope : String
  pub target_id : Option String
  pub reason : String
  pub granted_by : String
  pub expires_at : ℕ
  pub revoked_at : Option ℕ
  pub created_at : ℕ

pub record GrantInput : Type 0 where
  pub id : Option String
  pub organization_id : String
  pub grantee_user_id : String
  pub scope : String
  pub target_id : Option String
  pub reason : String
  pub granted_by : String
  pub expires_at : ℕ

pub record Store : Type 0 where
  pub authorizations : List Authorization
  pub runs : List AgentRun
  pub bookmarks : List Bookmark
  pub grants : List Grant
