-- ===== src/Auth/Session/Genuine.antt =====
-- The tokens that verifySessionToken of packages/auth/session.mjs accepts, whoever made them.
use bai_rui_cloud_agent_plat.Prelude.{false, none, some, true, ℕ, ◌<◌, ◌≡◌, ◌⊎◌}
use bai_rui_cloud_agent_plat.Auth.Session.{Crypto, Session, Claims, is_missing, cut, is_blank}
use bai_rui_cloud_agent_plat.Json.{Text}
use bai_rui_cloud_agent_plat.Auth.Authorization.{is_role}

-- A token of some claims that are read from it, were signed under the secret, and hold.
pub record IsGenuine (c : Crypto) (secret token : Text) (now : ℕ) (s : Session) : Type 0 where
  pub payload : Text
  pub rest : Text
  pub claims : Claims
  pub keyed : is_missing secret ≡ false
  pub split : cut token ≡ (payload, some rest)
  pub filled : (is_missing payload ≡ false) × (is_missing (cut rest).0 ≡ false)
  pub signed : c.utf8 (cut rest).0 ≡ c.utf8 (c.sign payload secret)
  pub decoded : c.decode payload ≡ some claims
  pub versioned : claims.v ≡ 1
  pub named : (is_blank claims.sub ≡ false) × (is_blank claims.org ≡ false)
  pub ranked : is_role claims.role ≡ true
  pub alive : (claims.exp ≡ none) ⊎ ((t : ℕ) × (claims.exp ≡ some t) × (now < t))
  pub answer : s ≡ record {
    user_id = claims.sub;
    organization_id = claims.org;
    role = claims.role;
    issued_at = claims.iat;
    expires_at = claims.exp;
  }
