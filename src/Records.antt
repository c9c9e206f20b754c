-- ===== src/Records.antt =====
-- Authorizations, runs, bookmarks and grants of Agents in MemoryPlatformRepository
-- (packages/db/memory-repository.mjs).
pub mod Data
mod Examples
pub mod Unique
use bai_rui_cloud_agent_plat.Json.{obj, end}
use bai_rui_cloud_agent_plat.Prelude.{
  Bool, List, Option, String, [], any, find?, if◌then◌else◌, is_some, none, not, or_else, some,
  update_first, ℕ, ◌&&◌, ◌++◌, ◌===◌, ◌∷◌,
}
use bai_rui_cloud_agent_plat.Records.Data.{
  Authorization, AuthorizationInput, Store, AgentRun, RunInput, RunUpdate, Bookmark, BookmarkInput,
  GrantInput, Grant,
}

abbrev pub is_authorization : String → String → String → Authorization → Bool
is_authorization agent service label a =
    a.agent_id === agent && a.service === service && a.label === label

abbrev pub new_authorization : ℕ → String → AuthorizationInput → Authorization
new_authorization now fresh i = record {
  id = or_else i.id fresh;
  organization_id = i.organization_id;
  user_id = i.user_id;
  agent_id = i.agent_id;
  service = i.service;
  label = i.label;
  auth_type = i.auth_type;
  endpoint_url = i.endpoint_url;
  credential_envelope = i.credential_envelope;
  credential_hint = i.credential_hint;
  metadata = or_else i.metadata (obj end);
  status = "stored";
  last_error_code = none;
  last_used_at = none;
  created_at = now;
  updated_at = now;
}

-- What stays of the one that is there.
abbrev pub renew_authorization : ℕ → AuthorizationInput → Authorization → Authorization
renew_authorization now i a = record (new_authorization now a.id i) {
  id = a.id;
  last_used_at = a.last_used_at;
  created_at = a.created_at;
}

unfoldable pub upsert_agent_authorization :
    ℕ → String → AuthorizationInput → Store → Store × Authorization
upsert_agent_authorization now fresh i s =
    elim (find? (is_authorization i.agent_id i.service i.label) s.authorizations) [
      | some a ↦ (
        record s {
          authorizations =
              update_first (is_authorization i.agent_id i.service i.label)
                (renew_authorization now i) s.authorizations;
        },
        renew_authorization now i a,
      )
      | none ↦ (
        record s { authorizations = s.authorizations ++ new_authorization now fresh i ∷ [] },
        new_authorization now fresh i,
      )
    ]

abbrev pub is_own_authorization : String → String → String → String → Authorization → Bool
is_own_authorization organization user agent id a =
    a.id === id && a.organization_id === organization && a.user_id === user && a.agent_id === agent

unfoldable pub get_agent_authorization :
    String → String → String → String → Store → Option Authorization
get_agent_authorization organization user agent id s =
    find? (is_own_authorization organization user agent id) s.authorizations

abbrev pub revoke : ℕ → Authorization → Authorization
revoke now a = record a {
  credential_envelope = none;
  credential_hint = none;
  status = "revoked";
  updated_at = now;
}

unfoldable pub revoke_agent_authorization :
    ℕ → String → String → String → String → Store → Store × Option Authorization
unfolding get_agent_authorization
revoke_agent_authorization now organization user agent id s =
    elim (get_agent_authorization organization user agent id s) [
      | none ↦ (s, none)
      | some a ↦ (
        record s {
          authorizations =
              update_first (is_own_authorization organization user agent id) (revoke now)
                s.authorizations;
        },
        some (revoke now a),
      )
    ]

abbrev pub use_now : ℕ → Authorization → Authorization
use_now now a = record a { last_used_at = some now }

unfoldable pub mark_agent_authorization_used : ℕ → String → Store → Store × Option Authorization
mark_agent_authorization_used now id s = elim (find? (λ a. a.id === id) s.authorizations) [
  | none ↦ (s, none)
  | some a ↦ (
    record s { authorizations = update_first (λ a. a.id === id) (use_now now) s.authorizations },
    some (use_now now a),
  )
]

abbrev pub has_run_id : String → AgentRun → Bool
has_run_id id r = r.id === id

abbrev pub new_run : ℕ → RunInput → AgentRun
new_run now i = record {
  id = i.id;
  organization_id = i.organization_id;
  user_id = i.user_id;
  agent_id = i.agent_id;
  parent_run_id = i.parent_run_id;
  input_text = i.input_text;
  model = i.model;
  status = or_else i.status "started";
  last_error = i.last_error;
  created_at = now;
  updated_at = now;
  completed_at = i.completed_at;
}

-- `none` where the code throws.
unfoldable pub create_agent_run : ℕ → RunInput → Store → Store × Option AgentRun
create_agent_run now i s =
    if any (has_run_id i.id) s.runs
    then (s, none)
    else (record s { runs = s.runs ++ new_run now i ∷ [] }, some (new_run now i))

abbrev pub is_own_run : String → String → String → String → AgentRun → Bool
is_own_run organization user agent id r =
    r.id === id && r.organization_id === organization && r.user_id === user && r.agent_id === agent

unfoldable pub get_agent_run : String → String → String → String → Store → Option AgentRun
get_agent_run organization user agent id s = find? (is_own_run organization user agent id) s.runs

abbrev pub change_run : ℕ → RunUpdate → AgentRun → AgentRun
change_run now i r = record r {
  status = or_else i.status r.status;
  last_error = or_else i.last_error r.last_error;
  completed_at = or_else i.completed_at r.completed_at;
  updated_at = now;
}

unfoldable pub update_agent_run : ℕ → RunUpdate → Store → Store × Option AgentRun
unfolding get_agent_run
update_agent_run now i s = elim (get_agent_run i.organization_id i.user_id i.agent_id i.id s) [
  | none ↦ (s, none)
  | some r ↦ (
    record s {
      runs =
          update_first (is_own_run i.organization_id i.user_id i.agent_id i.id) (change_run now i)
            s.runs;
    },
    some (change_run now i r),
  )
]

abbrev pub is_bookmark : String → String → Bookmark → Bool
is_bookmark agent item b = b.agent_id === agent && b.hotspot_item_id === item

abbrev pub new_bookmark : ℕ → BookmarkInput → Bookmark
new_bookmark now i = record {
  organization_id = i.organization_id;
  user_id = i.user_id;
  agent_id = i.agent_id;
  hotspot_item_id = i.hotspot_item_id;
  created_at = now;
}

-- `splice(findIndex(p), 1)`
abbrev pub drop_first : (Bookmark → Bool) → List Bookmark → List Bookmark
drop_first p [] = []
drop_first p (b ∷ bs) = let rest = drop_first p bs in if p b then bs else b ∷ rest

unfoldable pub set_agent_hotspot_bookmark : ℕ → BookmarkInput → Store → Store × Bool
set_agent_hotspot_bookmark now i s =
    let there = any (is_bookmark i.agent_id i.hotspot_item_id) s.bookmarks in
    (
      record s {
        bookmarks =
            if i.bookmarked
            then (if there then s.bookmarks else s.bookmarks ++ new_bookmark now i ∷ [])
            else drop_first (is_bookmark i.agent_id i.hotspot_item_id) s.bookmarks;
      },
      i.bookmarked,
    )

abbrev pub new_grant : ℕ → String → GrantInput → Grant
new_grant now fresh i = record {
  id = or_else i.id fresh;
  organization_id = i.organization_id;
  grantee_user_id = i.grantee_user_id;
  permission = "conversation_content_read";
  scope = i.scope;
  target_id = i.target_id;
  reason = i.reason;
  granted_by = i.granted_by;
  expires_at = i.expires_at;
  revoked_at = none;
  created_at = now;
}

unfoldable pub create_sensitive_access_grant : ℕ → String → GrantInput → Store → Store × Grant
create_sensitive_access_grant now fresh i s =
    (record s { grants = s.grants ++ new_grant now fresh i ∷ [] }, new_grant now fresh i)

abbrev pub is_standing : String → String → Grant → Bool
is_standing organization id g =
    g.id === id && g.organization_id === organization && not (is_some g.revoked_at)

abbrev pub revoke_grant : ℕ → Grant → Grant
revoke_grant now g = record g { revoked_at = some now }

unfoldable pub revoke_sensitive_access_grant : ℕ → String → String → Store → Store × Option Grant
revoke_sensitive_access_grant now organization id s =
    elim (find? (is_standing organization id) s.grants) [
      | none ↦ (s, none)
      | some g ↦ (
        record s {
          grants = update_first (is_standing organization id) (revoke_grant now) s.grants;
        },
        some (revoke_grant now g),
      )
    ]
