-- ===== src/Auth/Session/Examples.antt =====
-- A session on concrete values: tests, and the theorems with concrete codes and signatures.
use bai_rui_cloud_agent_plat.Prelude.{◌+◌, ◌*◌, none, some, ◌≡◌, refl, leb, or_else, if◌then◌else◌}
use bai_rui_cloud_agent_plat.Json.{Text, codes}
use bai_rui_cloud_agent_plat.Policy.{text_eq}
use bai_rui_cloud_agent_plat.Auth.Authorization.{Principal}
use bai_rui_cloud_agent_plat.Auth.Session.{
  Crypto, claims_of, create_session_token, verify_session_token,
}
use bai_rui_cloud_agent_plat.Auth.Session.Tokens.{IsEncoding, session_of, verify-create}

abbrev ada : Principal
ada = record { user_id = "u1"; organization_id = "o1"; role = "user" }

abbrev secret : Text
secret = codes "0123456789abcdef0123456789abcdef"

-- The claims of this principal have the code `eyJ2`, and every signature is `sig`.
abbrev toy : Crypto
toy = record {
  sign = λ s k. codes "sig";
  encode = λ p. codes "eyJ2";
  decode = λ s. if text_eq s (codes "eyJ2") then some (claims_of ada 1000 (some 60)) else none;
  utf8 = λ s. s;
}

toy-IsEncoding : IsEncoding toy (claims_of ada 1000 (some 60))
toy-IsEncoding = record {
  payload_dotless = refl;
  payload_some = refl;
  signature_dotless = λ s k. refl;
  signature_some = λ s k. refl;
  read_back = refl;
}

abbrev token : Text
token = codes "eyJ2.sig"

created : create_session_token toy (some ada) secret 1000 (some 60) ≡ some token
unfolding create_session_token
created = refl

short_secret : create_session_token toy (some ada) (codes "short") 1000 (some 60) ≡ none
unfolding create_session_token
short_secret = refl

accepted : verify_session_token toy (some token) secret 1059 ≡ some (session_of ada 1000 (some 60))
unfolding verify_session_token
accepted = refl

expired : verify_session_token toy (some token) secret 1060 ≡ none
unfolding verify_session_token
expired = refl

-- What follows a second dot is not looked at.
longer :
    verify_session_token toy (some (codes "eyJ2.sig.more")) secret 1059
    ≡ some (session_of ada 1000 (some 60))
unfolding verify_session_token
longer = refl

verify-create_example : verify_session_token toy (some token) secret 1030 ≡ (
    if leb (1000 + or_else (some 60) (8 * 60 * 60)) 1030
    then none
    else some (session_of ada 1000 (some 60)))
verify-create_example = verify-create toy ada secret 1000 (some 60) 1030 toy-IsEncoding created

-- Claims that bear no time of expiry hold at any time.
abbrev endless : Crypto
endless = record toy { decode = λ s. some (record (claims_of ada 1000 none) { exp = none }) }

never_over :
    verify_session_token endless (some token) secret 99999999
    ≡ some (record (session_of ada 1000 none) { expires_at = none })
unfolding verify_session_token
never_over = refl
