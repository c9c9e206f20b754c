-- ===== src/Policy/Actions.antt =====
-- CONTROL_ACTION_ARGUMENTS, APPROVAL_ACTIONS and validateAction of
-- packages/control-authority/policy.mjs.
pub mod Accepted
use bai_rui_cloud_agent_plat.Prelude.{
  Bool, false, ◌||◌, not, ltb, Option, none, some, String, List, [], ◌∷◌, ◌++◌, any, if◌then◌else◌,
  ◌===◌,
}
use bai_rui_cloud_agent_plat.Json.{
  Text, codes, Value, undefined, str, arr, obj, Items, nil, cons, Fields, end, field,
}
use bai_rui_cloud_agent_plat.Policy.{
  ControlError, invalid_identifier, forbidden_action, invalid_action, missing_field, unknown_field,
  type_error, identifier, text_eq,
}
use bai_rui_cloud_agent_plat.Policy.Payload.{safe, first_error, refuse_if, length_items}

-- What the table gives for a name: its own entry, or something that every object inherits.
pub data Definition : Type 0 where
  own : (required optional : List String) → Definition
  inherited : Definition

unfoldable pub control_action_arguments : List (String × (List String × List String))
control_action_arguments =
    ("snapshot.collect", ([], []))
    ∷ ("deployment.provision", ("agent_id" ∷ "workspace_ref" ∷ "config_revision_id" ∷ [], []))
    ∷ ("deployment.start", ("agent_id" ∷ [], []))
    ∷ ("deployment.stop", ("agent_id" ∷ [], []))
    ∷ ("deployment.suspend", ("agent_id" ∷ [], []))
    ∷ ("deployment.resume", ("agent_id" ∷ [], []))
    ∷ ("deployment.delete", ("agent_id" ∷ [], "backup_id" ∷ []))
    ∷ ("credential.revoke", ("identity_id" ∷ [], []))
    ∷ ("probe.run", ("probe_ids" ∷ [], "test_run_id" ∷ []))
    ∷ ("contract.test", ("suite_id" ∷ [], "test_run_id" ∷ []))
    ∷ ("smoke.test", ("suite_id" ∷ [], "test_run_id" ∷ []))
    ∷ ("upstream.check", ("upstream_id" ∷ [], "candidate_id" ∷ "test_run_id" ∷ []))
    ∷ ("config.stage", ("config_revision_id" ∷ [], []))
    ∷ ("config.apply", ("config_revision_id" ∷ [], []))
    ∷ ("backup.create", ("backup_policy_id" ∷ [], "backup_id" ∷ []))
    ∷ ("backup.verify", ("backup_id" ∷ [], []))
    ∷ ("backup.restore", ("backup_id" ∷ "restore_id" ∷ [], []))
    ∷ ("backup.expire", ("backup_id" ∷ [], []))
    ∷ ("release.stage", ("release_id" ∷ [], "rollout_id" ∷ []))
    ∷ ("release.apply", ("release_id" ∷ [], "rollout_id" ∷ []))
    ∷ ("release.rollback", ("release_id" ∷ "rollback_release_id" ∷ [], "rollout_id" ∷ []))
    ∷ ("service.restart", ("service_id" ∷ [], []))
    ∷ []

-- The names that an object literal inherits.
abbrev pub prototype_names : List String
prototype_names =
    "constructor" ∷ "__defineGetter__" ∷ "__defineSetter__" ∷ "hasOwnProperty" ∷ "__lookupGetter__"
    ∷ "__lookupSetter__" ∷ "isPrototypeOf" ∷ "propertyIsEnumerable" ∷ "toString" ∷ "valueOf"
    ∷ "__proto__" ∷ "toLocaleString" ∷ []

unfoldable pub find_action :
    String → List (String × (List String × List String)) → Option Definition
find_action action [] = if any (λ n. action === n) prototype_names then some inherited else none
find_action action ((name, (required, optional)) ∷ rest) =
    if action === name then some (own required optional) else find_action action rest

unfoldable pub approval_actions : List String
approval_actions =
    "config.apply" ∷ "backup.restore" ∷ "release.apply" ∷ "release.rollback" ∷ "service.restart"
    ∷ "deployment.delete" ∷ "credential.revoke" ∷ []

-- `APPROVAL_ACTIONS.has(action)`
unfoldable pub needs_approval : String → Bool
unfolding approval_actions
needs_approval action = any (λ n. action === n) approval_actions

abbrev pub has_key : Text → Fields → Bool
has_key k end = false
has_key k (field j v fs) = text_eq k j || has_key k fs

abbrev pub allows : List String → Text → Bool
allows names k = any (λ n. text_eq k (codes n)) names

-- assertIdentifier
unfoldable pub assert_identifier : Value → Option ControlError
assert_identifier (str s) = if identifier s then none else some invalid_identifier
assert_identifier _ = some invalid_identifier

unfoldable pub identifiers : Items → Option ControlError
unfolding assert_identifier
identifiers nil = none
identifiers (cons v vs) = first_error (assert_identifier v) (identifiers vs)

unfoldable pub probe_ids : Value → Option ControlError
unfolding identifiers
probe_ids (arr vs) =
    refuse_if (ltb (length_items vs) 1 || ltb 100 (length_items vs)) invalid_action (identifiers vs)
probe_ids _ = some invalid_action

unfoldable pub missing_required : List String → Fields → Bool
missing_required [] fs = false
missing_required (n ∷ ns) fs = not (has_key (codes n) fs) || missing_required ns fs

unfoldable pub unknown_keys : List String → Fields → Bool
unknown_keys names end = false
unknown_keys names (field k v fs) = not (allows names k) || unknown_keys names fs

unfoldable pub argument_values : Fields → Option ControlError
unfolding probe_ids assert_identifier
argument_values end = none
argument_values (field k v fs) =
    first_error (if text_eq k (codes "probe_ids") then probe_ids v else assert_identifier v)
      (argument_values fs)

-- The checks of the arguments once the table's entry is known; an inherited entry has no
-- `required` to spread.
unfoldable pub validate_arguments : Definition → Fields → Option ControlError
unfolding missing_required unknown_keys argument_values
validate_arguments inherited fs = first_error (safe (obj fs)) (some type_error)
validate_arguments (own required optional) fs = first_error (safe (obj fs)) (
    refuse_if (missing_required required fs) missing_field
      (refuse_if (unknown_keys (required ++ optional) fs) unknown_field (argument_values fs)))

-- `undefined` is replaced by the default, the empty object.
unfoldable pub validate_value : Definition → Value → Option ControlError
unfolding validate_arguments
validate_value d undefined = validate_arguments d end
validate_value d (obj fs) = validate_arguments d fs
validate_value d _ = some invalid_action

unfoldable pub validate_action : String → Value → Option ControlError
unfolding find_action control_action_arguments validate_value
validate_action action args = elim (find_action action control_action_arguments) [
  | none ↦ some forbidden_action
  | some d ↦ validate_value d args
]
