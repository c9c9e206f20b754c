-- ===== src/IngressWorker/Messages.antt =====
-- What the worker reads of a message and of an error (packages/channels/ingress-worker.mjs).
use Prim.Native.String
use Prim.Native.Char.{code}
use bai_rui_cloud_agent_plat.Json.{Value, Text, Fields, codes, obj, field, end, str}
use bai_rui_cloud_agent_plat.Patterns.{is_alnum, one_of}
use bai_rui_cloud_agent_plat.Policy.{text_eq}
use bai_rui_cloud_agent_plat.Notes.{trim}
use bai_rui_cloud_agent_plat.Prelude.{
  Bool, Option, String, [], false, if◌then◌else◌, leb, none, or_else, some, suc, zero, ℕ, ◌||◌, ◌∷◌,
}

abbrev pub property_in : Text → Fields → Value
property_in k end = Value.undefined
property_in k (field j v fs) = let rest = property_in k fs in if text_eq j k then v else rest

-- What an object holds under a key, and `undefined`.
unfoldable pub property : Text → Value → Value
property k (obj fs) = property_in k fs
property k _ = Value.undefined

-- `String(code).replace(/[^A-Za-z0-9._:-]/g, "_")` for the marks "._:-"; it replaces each code unit.
unfoldable pub replace_unsafe : String → String → String
replace_unsafe marks String.[] = String.[]
replace_unsafe marks (String.◌∷◌ c s) =
    let rest = replace_unsafe marks s in
    if is_alnum (code c) || one_of marks (code c)
    then String.◌∷◌ c rest
    else if leb 65536 (code c)
    then String.◌++◌ "__" rest
    else String.◌++◌ "_" rest

unfoldable pub slice : ℕ → String → String
slice zero s = String.[]
slice (suc n) String.[] = String.[]
slice (suc n) (String.◌∷◌ c s) = String.◌∷◌ c (slice n s)

abbrev pub or_default : String → String → String
or_default String.[] d = d
or_default (String.◌∷◌ c s) d = String.◌∷◌ c s

-- The code of what was thrown, if it has one.
unfoldable pub error_code : Option String → String
unfolding replace_unsafe slice
error_code e =
    or_default (slice 200 (replace_unsafe "._:-" (or_else e "channel_runtime_failed")))
      "channel_runtime_failed"

-- `none` where the content is not supported. A text that is blank is not either.
abbrev pub some_text : Text → Option Text
some_text [] = none
some_text (c ∷ cs) = some (c ∷ cs)

abbrev pub trimmed : Value → Option Text
trimmed (str t) = some_text (trim t)
trimmed _ = none

abbrev pub is_kind : Value → Bool
is_kind (str t) = text_eq t (codes "text") || text_eq t (codes "markdown")
is_kind _ = false

unfoldable pub message_text : Value → Option Text
unfolding property trim
message_text content =
    if is_kind (property (codes "kind") content)
    then trimmed (property (codes "text") content)
    else none
