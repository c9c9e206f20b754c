-- ===== src/Auth/Session.antt =====
-- Session tokens: createSessionToken and verifySessionToken of packages/auth/session.mjs. The HMAC,
-- base64url with JSON, and UTF-8 are an argument. Instants are whole seconds.
pub mod Genuine
pub mod Tokens
pub mod Examples
use bai_rui_cloud_agent_plat.Prelude.{
  ℕ, ◌+◌, ◌*◌, Bool, true, false, ◌||◌, not, ltb, leb, String, Option, none, some, List, [], ◌∷◌,
  ◌++◌, length, or_else, if◌then◌else◌, ◌===◌, ◌==◌,
}
use bai_rui_cloud_agent_plat.Json.{Text}
use bai_rui_cloud_agent_plat.Policy.{text_eq}
use bai_rui_cloud_agent_plat.Auth.Authorization.{Principal, is_role}

-- A parsed payload. A `v` that is missing or not a number is 0, and a `sub`, `org` or `role` that is
-- missing or not a string is empty: the code refuses both. `iat` and `exp` are `none` where they are
-- missing or read as NaN; what compares as a number below zero is 0.
pub record Claims : Type 0 where
  pub v : ℕ
  pub sub : String
  pub org : String
  pub role : String
  pub iat : Option ℕ
  pub exp : Option ℕ

-- What createHmac, base64url with JSON and `Buffer.from` compute; `decode` is `none` where parsing
-- throws.
pub record Crypto : Type 0 where
  pub sign : Text → Text → Text
  pub encode : Claims → Text
  pub decode : Text → Option Claims
  pub utf8 : Text → List ℕ

pub record Session : Type 0 where
  pub user_id : String
  pub organization_id : String
  pub role : String
  pub issued_at : Option ℕ
  pub expires_at : Option ℕ

abbrev pub dot : ℕ
dot = 46

-- The text before the first dot, and the text after it, if there is a dot.
unfoldable pub cut : Text → Text × Option Text
cut [] = ([], none)
cut (c ∷ cs) = let rest = cut cs in if c == dot then ([], some cs) else (c ∷ rest.0, rest.1)

abbrev pub is_blank : String → Bool
is_blank s = s === ""

abbrev pub claims_of : Principal → ℕ → Option ℕ → Claims
claims_of p now ttl = record {
  v = 1;
  sub = p.user_id;
  org = p.organization_id;
  role = p.role;
  iat = some now;
  exp = some (now + or_else ttl (8 * 60 * 60));
}

-- `none` where the code throws a TypeError.
unfoldable pub create_session_token : Crypto → Option Principal → Text → ℕ → Option ℕ → Option Text
unfolding is_role
create_session_token c none secret now ttl = none
create_session_token c (some p) secret now ttl =
    if ltb (length secret) 32
    then none
    else if is_blank p.user_id || is_blank p.organization_id || not (is_role p.role)
    then none
    else let payload = c.encode (claims_of p now ttl) in
      some (payload ++ dot ∷ c.sign payload secret)

abbrev pub is_missing : Text → Bool
is_missing [] = true
is_missing (_ ∷ _) = false

-- `parsed.exp <= now`, which is false where there is no number.
abbrev pub is_over : Option ℕ → ℕ → Bool
is_over none now = false
is_over (some e) now = leb e now

-- The tests on the parsed payload.
unfoldable pub check_claims : Claims → ℕ → Option Session
unfolding is_role
check_claims p now =
    if not (p.v == 1)
      || is_blank p.sub
      || is_blank p.org
      || not (is_role p.role)
      || is_over p.exp now
    then none
    else some (record {
      user_id = p.sub;
      organization_id = p.org;
      role = p.role;
      issued_at = p.iat;
      expires_at = p.exp;
    })

unfoldable pub check_payload : Option Claims → ℕ → Option Session
unfolding check_claims
check_payload none now = none
check_payload (some p) now = check_claims p now

-- The tests on the two parts of the token.
unfoldable pub verify_parts : Crypto → Text → Text → Text → ℕ → Option Session
unfolding check_payload
verify_parts c payload signature secret now =
    if is_missing payload || is_missing signature
    then none
    else if text_eq (c.utf8 signature) (c.utf8 (c.sign payload secret))
    then check_payload (c.decode payload) now
    else none

-- `token.split(".")`, of which the first two parts are taken, and the tests.
unfoldable pub verify_session_token : Crypto → Option Text → Text → ℕ → Option Session
unfolding cut verify_parts
verify_session_token c none secret now = none
verify_session_token c (some token) secret now =
    if is_missing secret then none else elim (cut token).1 [
      | none ↦ none
      | some rest ↦ verify_parts c (cut token).0 (cut rest).0 secret now
    ]
