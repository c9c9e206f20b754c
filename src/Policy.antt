-- ===== src/Policy.antt =====
-- The control policy, packages/control-authority/policy.mjs: its patterns and constants.
pub mod Payload
pub mod Redaction
pub mod Actions
pub mod Examples
use bai_rui_cloud_agent_plat.Prelude.{
  ℕ, ◌+◌, Bool, true, false, ◌&&◌, ◌||◌, not, String, List, [], ◌∷◌, ◌++◌, map, any, leb, ◌==◌,
  if◌then◌else◌,
}
use bai_rui_cloud_agent_plat.Json.{Text, codes}
use bai_rui_cloud_agent_plat.Patterns.{
  is_alnum, is_upper, is_lower, is_digit, one_of, first_then, run_of,
}
use bai_rui_cloud_agent_plat.Regex.{
  Regex, empty, class, seq, alt, star, at_least, literal, finds, times,
}

-- The `code` of an error that `controlError` makes; `type_error` is the engine's own.
pub data ControlError : Type 0 where
  invalid_identifier invalid_reference invalid_digest forbidden_field : ControlError
  raw_secret_not_allowed forbidden_action invalid_action missing_field unknown_field : ControlError
  type_error : ControlError

abbrev pub is_name_char : ℕ → Bool
is_name_char c = is_alnum c || one_of "._:/-" c

-- `/^[A-Za-z0-9][A-Za-z0-9._:/-]{0,255}$/`
unfoldable pub identifier : Text → Bool
unfolding first_then
identifier cs = first_then is_alnum is_name_char 255 cs

-- The text behind a prefix, if it has it.
unfoldable pub after : Text → (Text → Bool) → Text → Bool
after [] p cs = p cs
after (d ∷ ds) p [] = false
after (d ∷ ds) p (c ∷ cs) = c == d && after ds p cs

-- `/^(?:ref|id|hint):[A-Za-z0-9][A-Za-z0-9._:/-]{0,255}$/`
unfoldable pub reference : Text → Bool
unfolding after identifier
reference cs =
    after (codes "ref:") identifier cs
    || after (codes "id:") identifier cs
    || after (codes "hint:") identifier cs

-- `/^sr_[A-Za-z0-9_-]{16,128}$/`
unfoldable pub secret_reference : Text → Bool
unfolding after run_of
secret_reference cs = after (codes "sr_") (run_of (λ c. is_alnum c || one_of "_-" c) 16 128) cs

-- `/^sha256:[0-9a-f]{64}$/`
unfoldable pub digest : Text → Bool
unfolding after run_of
digest cs = after (codes "sha256:") (run_of (λ c. is_digit c || leb b'a' c && leb c b'f') 64 64) cs

-- `OPERATIONAL_TEXT`
unfoldable pub operational_text : Text → Bool
unfolding reference digest identifier
operational_text cs = reference cs || digest cs || identifier cs

-- `\s`
abbrev pub is_space : ℕ → Bool
is_space c =
    leb 9 c && leb c 13
    || any (λ d. c == d)
        (32 ∷ 0xa0 ∷ 0x1680 ∷ 0x2028 ∷ 0x2029 ∷ 0x202f ∷ 0x205f ∷ 0x3000 ∷ 0xfeff ∷ [])
    || leb 0x2000 c && leb c 0x200a

abbrev spaces : Regex
spaces = seq (class is_space) (star (class is_space))

-- A class under the `i` flag; the classes below hold both cases of each letter they hold.
abbrev letters : Regex
letters = class (λ c. is_upper c || is_lower c)

-- `SECRET_TEXT`, which is searched for anywhere, letters in either case.
unfoldable pub secret_pattern : Regex
unfolding times
secret_pattern =
    alt
      (seq (literal (codes "-----BEGIN")) (
        seq spaces (
          seq (alt empty (seq (seq letters (star letters)) spaces))
            (literal (codes "PRIVATE KEY-----")))))
      (alt
        (seq (literal (codes "Bearer"))
          (seq spaces (at_least 16 (class (λ c. is_alnum c || one_of "._~+/=-" c)))))
        (seq
          (alt (literal (codes "sk"))
            (seq (literal (codes "gh")) (class (λ c. one_of "oprsu" c || one_of "OPRSU" c))))
          (seq (class (one_of "-_")) (at_least 16 (class (λ c. is_alnum c || one_of "_-" c))))))

unfoldable pub has_secret : Text → Bool
unfolding finds secret_pattern
has_secret cs = finds secret_pattern cs

abbrev pub text_eq : Text → Text → Bool
text_eq [] [] = true
text_eq [] (_ ∷ _) = false
text_eq (_ ∷ _) [] = false
text_eq (c ∷ cs) (d ∷ ds) = c == d && text_eq cs ds

-- `FORBIDDEN_KEYS`
unfoldable pub forbidden_keys : List String
forbidden_keys =
    "prompt" ∷ "systemprompt" ∷ "chat" ∷ "conversation" ∷ "conversations" ∷ "message" ∷ "messages"
    ∷ "task" ∷ "tasks" ∷ "model" ∷ "models" ∷ "provider" ∷ "providers" ∷ "tool" ∷ "tools" ∷ "skill"
    ∷ "skills" ∷ "memory" ∷ "memories" ∷ "password" ∷ "token" ∷ "accesstoken" ∷ "refreshtoken"
    ∷ "apikey" ∷ "accesskey" ∷ "secret" ∷ "secrets" ∷ "secretvalue" ∷ "secretenvelope"
    ∷ "credential" ∷ "credentials" ∷ "authorization" ∷ "shell" ∷ "script" ∷ "sql" ∷ []

-- `replace(/[^A-Za-z0-9]/g, "").toLowerCase()`
unfoldable pub normalize_key : Text → Text
normalize_key [] = []
normalize_key (c ∷ cs) =
    let rest = normalize_key cs in
    if is_alnum c then (if is_upper c then c + 32 else c) ∷ rest else rest

unfoldable pub forbidden_key : Text → Bool
unfolding forbidden_keys normalize_key
forbidden_key k = any (λ f. text_eq (normalize_key k) (codes f)) forbidden_keys
