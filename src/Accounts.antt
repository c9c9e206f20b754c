-- ===== src/Accounts.antt =====
-- Organizations, users, Agents and Runtimes in MemoryPlatformRepository
-- (packages/db/memory-repository.mjs). `lower` stands for `toLowerCase`.
pub mod Calls
pub mod Agents
pub mod Unique
mod Examples
use bai_rui_cloud_agent_plat.Fleet.Store.{Agent, AgentRuntime}
use bai_rui_cloud_agent_plat.Prelude.{
  Bool, List, Option, String, any, find?, if◌then◌else◌, lookup, none, or_else, put, some,
  update_key, values, ℕ, ◌===◌,
}

pub record Organization : Type 0 where
  pub id : String
  pub name : String
  pub created_at : ℕ

pub record User : Type 0 where
  pub id : String
  pub organization_id : String
  pub email : String
  pub display_name : String
  pub password_hash : String
  pub role : String
  pub status : String
  pub created_at : ℕ

-- A user without the password's hash.
pub record PublicUser : Type 0 where
  pub id : String
  pub organization_id : String
  pub email : String
  pub display_name : String
  pub role : String
  pub status : String
  pub created_at : ℕ

pub record Store : Type 0 where
  pub organizations : List (String × Organization)
  pub users : List (String × User)
  pub agents : List (String × Agent)
  pub runtimes : List (String × AgentRuntime)

abbrev pub public_user : User → PublicUser
public_user u = record {
  id = u.id;
  organization_id = u.organization_id;
  email = u.email;
  display_name = u.display_name;
  role = u.role;
  status = u.status;
  created_at = u.created_at;
}

pub record OrganizationInput : Type 0 where
  pub id : Option String
  pub name : String

abbrev pub new_organization : ℕ → String → OrganizationInput → Organization
new_organization now fresh i = record { id = or_else i.id fresh; name = i.name; created_at = now }

unfoldable pub create_organization : ℕ → String → OrganizationInput → Store → Store × Organization
create_organization now fresh i s =
    let o = new_organization now fresh i in
    (record s { organizations = put o.id o s.organizations }, o)

pub record UserInput : Type 0 where
  pub id : Option String
  pub organization_id : String
  pub email : String
  pub display_name : String
  pub password_hash : String
  pub role : Option String
  pub status : Option String

abbrev pub has_email : String → User → Bool
has_email email u = u.email === email

abbrev pub new_user : (String → String) → ℕ → String → UserInput → User
new_user lower now fresh i = record {
  id = or_else i.id fresh;
  organization_id = i.organization_id;
  email = lower i.email;
  display_name = i.display_name;
  password_hash = i.password_hash;
  role = or_else i.role "user";
  status = or_else i.status "active";
  created_at = now;
}

-- `none` where the address is taken, and the code throws.
unfoldable pub create_user :
    (String → String) → ℕ → String → UserInput → Store → Store × Option PublicUser
create_user lower now fresh i s =
    if any (has_email (lower i.email)) (values s.users)
    then (s, none)
    else (let u = new_user lower now fresh i in
        (record s { users = put u.id u s.users }, some (public_user u)))

unfoldable pub find_user_by_email : (String → String) → String → Store → Option User
find_user_by_email lower email s = find? (has_email (lower email)) (values s.users)

unfoldable pub get_user : String → Store → Option PublicUser
get_user id s = elim (lookup id s.users) [ none ↦ none | some u ↦ some (public_user u) ]

abbrev pub set_role : String → User → User
set_role role u = record u { role = role }

unfoldable pub update_user_role : String → String → Store → Store × Option PublicUser
update_user_role id role s = elim (lookup id s.users) [
  | none ↦ (s, none)
  | some u ↦ (
    record s { users = update_key id (set_role role) s.users },
    some (public_user (set_role role u)),
  )
]
