-- ===== src/Auth/Authorization.antt =====
-- packages/auth/authorization.mjs. A role and a permission are the strings that the code compares.
use bai_rui_cloud_agent_plat.Prelude.{
  matches_or_any, Bool, true, false, ◌&&◌, not, String, Option, none, some, List, [], ◌∷◌, any,
  ◌===◌, if◌then◌else◌,
}

-- `Object.values(ROLES)`
unfoldable pub roles : List String
roles = "user" ∷ "org_admin" ∷ "platform_admin" ∷ []

unfoldable pub user_permissions : List String
user_permissions =
    "self:read" ∷ "agent:create" ∷ "agent:read" ∷ "agent:manage-own" ∷ "agent:use"
    ∷ "conversation:read" ∷ "conversation:write" ∷ []

unfoldable pub org_admin_permissions : List String
org_admin_permissions =
    "self:read" ∷ "agent:create" ∷ "agent:read" ∷ "agent:manage-own" ∷ "agent:use"
    ∷ "conversation:read" ∷ "conversation:write" ∷ "org:members:manage" ∷ "org:agents:manage"
    ∷ "org:audit:read" ∷ "control-plane:read" ∷ "control-plane:manage" ∷ "data-governance:manage"
    ∷ []

-- `Object.values(PERMISSIONS)`
unfoldable pub permissions : List String
permissions =
    "self:read" ∷ "agent:create" ∷ "agent:read" ∷ "agent:manage-own" ∷ "agent:use"
    ∷ "conversation:read" ∷ "conversation:write" ∷ "org:members:manage" ∷ "org:agents:manage"
    ∷ "org:audit:read" ∷ "platform:overview:read" ∷ "platform:users:manage"
    ∷ "platform:organizations:manage" ∷ "platform:licenses:manage" ∷ "platform:servers:manage"
    ∷ "platform:releases:manage" ∷ "platform:provider-settings:manage" ∷ "control-plane:read"
    ∷ "control-plane:manage" ∷ "data-governance:manage" ∷ "sensitive-access:manage"
    ∷ "control-plane:ingest" ∷ []

-- `set.has(s)` and `list.includes(s)`
abbrev pub holds : List String → String → Bool
holds names s = any (λ n. s === n) names

unfoldable pub is_role : String → Bool
unfolding roles
is_role role = holds roles role

-- `grants.get(role)?.has(permission)`
unfoldable pub grants : String → String → Bool
unfolding user_permissions org_admin_permissions permissions
grants role permission =
    if role === "user"
    then holds user_permissions permission
    else if role === "org_admin"
    then holds org_admin_permissions permission
    else if role === "platform_admin"
    then holds permissions permission
    else false

pub record Principal : Type 0 where
  pub user_id : String
  pub organization_id : String
  pub role : String

pub record Resource : Type 0 where
  pub organization_id : Option String
  pub user_id : Option String

-- The two tests on the resource, whose fields may be missing or empty.
unfoldable pub in_scope : Principal → Resource → Bool
in_scope p r =
    if not (matches_or_any r.organization_id p.organization_id)
    then false
    else if p.role === "user" && not (matches_or_any r.user_id p.user_id)
    then false
    else true

unfoldable pub can : Option Principal → String → Resource → Bool
unfolding is_role grants in_scope
can none permission r = false
can (some p) permission r =
    if not (is_role p.role)
    then false
    else if not (grants p.role permission)
    then false
    else if p.role === "platform_admin"
    then true
    else in_scope p r

-- `none` where the code throws an AuthorizationError.
unfoldable pub require_permission : Option Principal → String → Resource → Option (Option Principal)
unfolding can
require_permission p permission r = if can p permission r then some p else none
