-- ===== src/Notebook/Data.antt =====
-- Notes, and the inputs of the calls on them (packages/db/memory-repository.mjs).
use bai_rui_cloud_agent_plat.Projection.{Job}
use bai_rui_cloud_agent_plat.Prelude.{Bool, List, Option, String, ℕ}

pub record Note : Type 0 where
  pub id : String
  pub organization_id : String
  pub user_id : String
  pub agent_id : String
  pub slug : String
  pub title : String
  pub markdown : String
  pub memory_kind : String
  pub importance : ℕ
  pub hermes_target : String
  pub source_ref : String
  pub revision : ℕ
  pub hermes_sync_status : String
  pub hermes_synced_revision : Option ℕ
  pub hermes_synced_at : Option ℕ
  pub created_at : ℕ
  pub updated_at : ℕ

pub record Store : Type 0 where
  pub notes : List Note
  pub jobs : List Job

pub record CreateInput : Type 0 where
  pub id : Option String
  pub organization_id : String
  pub user_id : String
  pub agent_id : String
  pub slug : String
  pub title : String
  pub markdown : String
  pub memory_kind : Option String
  pub importance : Option ℕ
  pub hermes_target : Option String
  pub source_ref : Option String
  pub queue_projection : Bool
  pub projection_reason : Option String

pub record UpdateInput : Type 0 where
  pub id : String
  pub organization_id : String
  pub user_id : String
  pub agent_id : String
  pub slug : Option String
  pub title : Option String
  pub markdown : Option String
  pub memory_kind : Option String
  pub importance : Option ℕ
  pub hermes_target : Option String
  pub source_ref : Option String
  pub queue_projection : Bool
  pub projection_reason : Option String
