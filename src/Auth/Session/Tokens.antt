-- ===== src/Auth/Session/Tokens.antt =====
-- That verifySessionToken of packages/auth/session.mjs accepts what createSessionToken makes.
use bai_rui_cloud_agent_plat.Prelude.{
  ℕ, ◌+◌, ◌*◌, ◌≤◌, Bool, true, false, ◌||◌, not, ltb, leb, Option, none, some, [], ◌∷◌, ◌++◌,
  length, or_else, if◌then◌else◌, ◌==◌, ◌≡◌, ◌∙◌, refl, Bool-cases, inl, inr, arith,
}
use bai_rui_cloud_agent_plat.Json.{Text}
use bai_rui_cloud_agent_plat.Policy.Actions.Accepted.{text_eq_refl}
use bai_rui_cloud_agent_plat.Patterns.{all}
use bai_rui_cloud_agent_plat.Auth.Authorization.{Principal, is_role}
use bai_rui_cloud_agent_plat.Auth.Session.{
  Claims, Crypto, Session, dot, cut, is_blank, claims_of, create_session_token, is_missing,
  check_claims, check_payload, verify_parts, verify_session_token,
}

abbrev pub has_no_dot : Text → Bool
has_no_dot s = all (λ c. not (c == dot)) s

-- What base64url promises of some claims and of signatures: a text without a dot and not empty, from
-- which the claims are read back.
pub record IsEncoding (c : Crypto) (p : Claims) : Type 0 where
  pub payload_dotless : has_no_dot (c.encode p) ≡ true
  pub payload_some : is_missing (c.encode p) ≡ false
  pub signature_dotless : (s k : Text) → has_no_dot (c.sign s k) ≡ true
  pub signature_some : (s k : Text) → is_missing (c.sign s k) ≡ false
  pub read_back : c.decode (c.encode p) ≡ some p

cut-dotless : (s : Text) → has_no_dot s ≡ true → cut s ≡ (s, none)
unfolding cut
cut-dotless [] h = refl
cut-dotless (c ∷ cs) h = elim (Bool-cases (c == dot)) [
  | inl t ↦ let r = rw t at h in cc
  | inr f ↦ let rest = cut-dotless cs (rw f at h) in rw f (rw rest refl)
]

cut-append : (s t : Text) → has_no_dot s ≡ true → cut (s ++ dot ∷ t) ≡ (s, some t)
unfolding cut
cut-append [] t h = refl
cut-append (c ∷ cs) t h = elim (Bool-cases (c == dot)) [
  | inl u ↦ let r = rw u at h in cc
  | inr f ↦ let rest = cut-append cs t (rw f at h) in rw f (rw rest refl)
]

verify_parts-signed :
    (c : Crypto) (p : Claims) (secret : Text) (now : ℕ)
    → IsEncoding c p
    → verify_parts c (c.encode p) (c.sign (c.encode p) secret) secret now ≡ check_claims p now
unfolding verify_parts check_payload
verify_parts-signed c p secret now e = rw (e.payload_some) (
    rw (e.signature_some (c.encode p) secret)
      (rw (text_eq_refl (c.utf8 (c.sign (c.encode p) secret))) (rw (e.read_back) refl)))

verify-signed :
    (c : Crypto) (p : Claims) (secret : Text) (now : ℕ)
    → IsEncoding c p
    → is_missing secret ≡ false
    → verify_session_token c (some (c.encode p ++ dot ∷ c.sign (c.encode p) secret)) secret now
      ≡ check_claims p now
unfolding verify_session_token
verify-signed c p secret now e h =
    let a = cut-append (c.encode p) (c.sign (c.encode p) secret) e.payload_dotless in
    let b = cut-dotless (c.sign (c.encode p) secret) (e.signature_dotless (c.encode p) secret) in
    rw h (rw a (rw a (rw b (verify_parts-signed c p secret now e))))

-- The session of a principal, from the time of its token.
abbrev pub session_of : Principal → ℕ → Option ℕ → Session
session_of p now ttl = record {
  user_id = p.user_id;
  organization_id = p.organization_id;
  role = p.role;
  issued_at = some now;
  expires_at = some (now + or_else ttl (8 * 60 * 60));
}

-- What createSessionToken checks, where it does not throw.
record IsIssued (c : Crypto) (p : Principal) (secret : Text) (now : ℕ) (ttl : Option ℕ)
    (token : Text) : Type 0 where
  long_secret : 32 ≤ length secret
  user_named : is_blank p.user_id ≡ false
  organization_named : is_blank p.organization_id ≡ false
  has_role : is_role p.role ≡ true
  is_signed :
      c.encode (claims_of p now ttl) ++ dot ∷ c.sign (c.encode (claims_of p now ttl)) secret ≡ token

pub passed {ℓ} :
    {A : Type ℓ} (b : Bool) (rest : Option A) {a : A}
    → (if b then none else rest) ≡ some a
    → (b ≡ false) × (rest ≡ some a)
passed true rest h = cc
passed false rest h = (refl, h)

pub neither : (a b : Bool) → (a || b) ≡ false → (a ≡ false) × (b ≡ false)
neither true b h = cc
neither false b h = (refl, h)

pub negated : (b : Bool) → not b ≡ false → b ≡ true
negated true h = refl
negated false h = cc

create-IsIssued :
    (c : Crypto) (p : Principal) (secret : Text) (now : ℕ) (ttl : Option ℕ) (token : Text)
    → create_session_token c (some p) secret now ttl ≡ some token
    → IsIssued c p secret now ttl token
unfolding create_session_token
create-IsIssued c p secret now ttl token h =
    let (long, h1) = passed (ltb (length secret) 32) _ h in
    let (named, h2) =
      passed (is_blank p.user_id || is_blank p.organization_id || not (is_role p.role)) _ h1 in
    let (both, role) = neither (is_blank p.user_id || is_blank p.organization_id) _ named in
    let (user, org) = neither (is_blank p.user_id) (is_blank p.organization_id) both in
    record {
      long_secret = ground arith;
      user_named = user;
      organization_named = org;
      has_role = negated (is_role p.role) role;
      is_signed = cc;
    }

long_some : (s : Text) → 32 ≤ length s → is_missing s ≡ false
long_some [] h = absurd (omega arith)
long_some (c ∷ cs) h = refl

check_claims-claims_of :
    (p : Principal) (now : ℕ) (ttl : Option ℕ) (later : ℕ)
    → is_blank p.user_id ≡ false
    → is_blank p.organization_id ≡ false
    → is_role p.role ≡ true
    → check_claims (claims_of p now ttl) later
      ≡ (if leb (now + or_else ttl (8 * 60 * 60)) later then none else some (session_of p now ttl))
unfolding check_claims
check_claims-claims_of p now ttl later u o r = rw u (rw o (rw r refl))

-- Where the encoding of a principal's claims has no dot, is not empty and is read back as the claims,
-- and signatures have no dot and are not empty: a token that createSessionToken makes for the
-- principal is accepted by verifySessionToken under the
-- same secret with that principal's session before its time is over, and refused from then on.
pub verify-create :
    (c : Crypto) (p : Principal) (secret : Text) (now : ℕ) (ttl : Option ℕ) (later : ℕ)
    {token : Text}
    → IsEncoding c (claims_of p now ttl)
    → create_session_token c (some p) secret now ttl ≡ some token
    → verify_session_token c (some token) secret later
      ≡ (if leb (now + or_else ttl (8 * 60 * 60)) later then none else some (session_of p now ttl))
verify-create c p secret now ttl later {token} e h =
    let i = create-IsIssued c p secret now ttl token h in
    let present : is_missing secret ≡ false = long_some secret i.long_secret in
    rw (← i.is_signed) (
      verify-signed c (claims_of p now ttl) secret later e present
      ∙ check_claims-claims_of p now ttl later i.user_named i.organization_named i.has_role)
