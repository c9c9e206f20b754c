-- ===== src/Auth/Scope.antt =====
-- What `can` of packages/auth/authorization.mjs admits.
use bai_rui_cloud_agent_plat.Prelude.{
  matches_or_any, ◌||◌, All, Bool, true, false, not, String, Option, none, some, List, [], ◌∷◌, ◌≡◌,
  ◌⊎◌, inl, inr, ◌↔◌, ◌===◌, eq_iff, Bool-cases, arith, refl, if◌then◌else◌,
}
use bai_rui_cloud_agent_plat.Auth.Authorization.{
  holds, is_role, grants, user_permissions, org_admin_permissions, permissions, Principal, Resource,
  in_scope, can,
}

-- A filter names nothing, or it names `s`.
pub data Names (s : String) : Option String → Type 0 where
  missing : Names s none
  empty : Names s (some "")
  same : Names s (some s)

-- The principal's role holds the permission, and unless it is the platform's administrator the
-- resource is its organization's, and a user's own.
pub record IsAdmitted (p : Principal) (permission : String) (r : Resource) : Type 0 where
  pub granted : grants p.role permission ≡ true
  pub within :
      (p.role ≡ "platform_admin")
      ⊎ (Names p.organization_id r.organization_id × (p.role ≡ "user" → Names p.user_id r.user_id))

matches_or_any-Names : (f : Option String) (s : String) → matches_or_any f s ≡ true → Names s f
matches_or_any-Names none s h = missing
matches_or_any-Names (some f) s h = elim (Bool-cases (f === "")) [
  | inl t ↦ rw ((eq_iff f "").0 t) empty
  | inr n ↦ rw (← (eq_iff s f).0 (rw n at h)) same
]

matches_or_any-of_Names : {f : Option String} {s : String} → Names s f → matches_or_any f s ≡ true
matches_or_any-of_Names missing = refl
matches_or_any-of_Names empty = refl
matches_or_any-of_Names {s} same = let h = (eq_iff s s).1 refl in ground arith

in_scope-within :
    (p : Principal) (r : Resource)
    → in_scope p r ≡ true
    → Names p.organization_id r.organization_id × (p.role ≡ "user" → Names p.user_id r.user_id)
unfolding in_scope
in_scope-within p r h = elim (Bool-cases (matches_or_any r.organization_id p.organization_id)) [
  | inr n ↦ absurd (ground arith)
  | inl t ↦ (
    matches_or_any-Names r.organization_id p.organization_id t,
    λ u.
        let is_user = (eq_iff p.role "user").1 u in
        matches_or_any-Names r.user_id p.user_id (ground arith),
  )
]

in_scope-of_within :
    (p : Principal) (r : Resource)
    → Names p.organization_id r.organization_id
    → (p.role ≡ "user" → Names p.user_id r.user_id)
    → in_scope p r ≡ true
unfolding in_scope
in_scope-of_within p r tenant own =
    let t = matches_or_any-of_Names tenant in
    elim (Bool-cases (p.role === "user")) [
      | inr n ↦ ground arith
      | inl u ↦ let h = matches_or_any-of_Names (own ((eq_iff p.role "user").0 u)) in ground arith
    ]

one_role :
    (a b c x y z : Bool)
    → (if a then x else if b then y else if c then z else false) ≡ true
    → (a || (b || (c || false))) ≡ true
one_role true b c x y z h = refl
one_role false true c x y z h = refl
one_role false false true x y z h = refl
one_role false false false x y z h = h

is_role-grants : (role permission : String) → grants role permission ≡ true → is_role role ≡ true
unfolding is_role grants
is_role-grants role permission h =
    one_role (role === "user") (role === "org_admin") (role === "platform_admin") _ _ _ h

-- The three tests of `can`, in their order.
guards :
    (i g a s : Bool)
    → (if not i then false else if not g then false else if a then true else s) ≡ true
    → (g ≡ true) × ((a ≡ true) ⊎ (s ≡ true))
guards false g a s h = cc
guards true false a s h = cc
guards true true true s h = (refl, inl refl)
guards true true false s h = (refl, inr h)

pass :
    (i g a s : Bool)
    → i ≡ true
    → g ≡ true
    → (a ≡ true) ⊎ (s ≡ true)
    → (if not i then false else if not g then false else if a then true else s) ≡ true
pass i g a s hi hg (inl ha) = ground arith
pass i g true s hi hg (inr hs) = ground arith
pass i g false s hi hg (inr hs) = ground arith

can-IsAdmitted :
    (p : Principal) (permission : String) (r : Resource)
    → can (some p) permission r ≡ true
    → IsAdmitted p permission r
unfolding can
can-IsAdmitted p permission r h =
    let (g, w) =
      guards (is_role p.role) (grants p.role permission) (p.role === "platform_admin")
        (in_scope p r) h in
    record {
      granted = g;
      within = elim w [
        | inl t ↦ inl ((eq_iff p.role "platform_admin").0 t)
        | inr s ↦ inr (in_scope-within p r s)
      ];
    }

IsAdmitted-can :
    (p : Principal) (permission : String) (r : Resource)
    → IsAdmitted p permission r
    → can (some p) permission r ≡ true
unfolding can
IsAdmitted-can p permission r a =
    pass (is_role p.role) (grants p.role permission) (p.role === "platform_admin") (in_scope p r)
      (is_role-grants p.role permission a.granted) a.granted
      (elim a.within [
        | inl e ↦ inl ((eq_iff p.role "platform_admin").1 e)
        | inr s ↦ inr (in_scope-of_within p r s.0 s.1)
      ])

-- A principal may do something to a resource exactly where its role holds the permission, and it is
-- the platform's administrator, or the resource names no organization or the principal's, and for a
-- user also no user or the principal.
pub can_iff :
    (p : Principal) (permission : String) (r : Resource)
    → (can (some p) permission r ≡ true) ↔ IsAdmitted p permission r
can_iff p permission r = (can-IsAdmitted p permission r, IsAdmitted-can p permission r)

holds_subset :
    (xs ys : List String) (s : String)
    → All (λ x. holds ys x ≡ true) xs
    → holds xs s ≡ true
    → holds ys s ≡ true
holds_subset [] ys s a h = cc
holds_subset (x ∷ xs) ys s a h = elim (Bool-cases (s === x)) [
  | inl t ↦ rw ((eq_iff s x).0 t) (a.0)
  | inr n ↦ holds_subset xs ys s a.1 (rw n at h)
]

user_subset : All (λ x. holds org_admin_permissions x ≡ true) user_permissions
unfolding user_permissions org_admin_permissions
user_subset = (refl, (refl, (refl, (refl, (refl, (refl, (refl, tt)))))))

org_admin_subset : All (λ x. holds permissions x ≡ true) org_admin_permissions
unfolding org_admin_permissions permissions
org_admin_subset = (
  refl,
  (
    refl,
    (refl, (refl, (refl, (refl, (refl, (refl, (refl, (refl, (refl, (refl, (refl, tt))))))))))),
  ),
)

-- The same principal under another role.
abbrev pub as_role : String → Principal → Principal
as_role role p = record p { role = role }

grants-user : (s : String) → grants "user" s ≡ true → grants "org_admin" s ≡ true
unfolding grants
grants-user s h = holds_subset user_permissions org_admin_permissions s user_subset h

grants-org_admin : (s : String) → grants "org_admin" s ≡ true → grants "platform_admin" s ≡ true
unfolding grants
grants-org_admin s h = holds_subset org_admin_permissions permissions s org_admin_subset h

-- What a principal may do as a user it may do as its organization's administrator, and what it may
-- do as that it may do as the platform's administrator.
pub can-as_role :
    (p : Principal) (permission : String) (r : Resource)
    → (can (some (as_role "user" p)) permission r ≡ true
        → can (some (as_role "org_admin" p)) permission r ≡ true)
      × (can (some (as_role "org_admin" p)) permission r ≡ true
          → can (some (as_role "platform_admin" p)) permission r ≡ true)
can-as_role p permission r = (
  λ h.
      let a = can-IsAdmitted (as_role "user" p) permission r h in
      IsAdmitted-can (as_role "org_admin" p) permission r (record {
        granted = grants-user permission a.granted;
        within = elim a.within [ inl e ↦ absurd (cc) | inr s ↦ inr (s.0, λ e. absurd (cc)) ];
      }),
  λ h.
      let a = can-IsAdmitted (as_role "org_admin" p) permission r h in
      IsAdmitted-can (as_role "platform_admin" p) permission r
        (record { granted = grants-org_admin permission a.granted; within = inl refl }),
)
