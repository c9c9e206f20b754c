-- ===== src/Providers/Latest.antt =====
-- What an upsert of a provider channel leaves (packages/db/memory-repository.mjs).
use bai_rui_cloud_agent_plat.Prelude.{
  Bool, Bool-cases, List, Option-cases, String, [], ap, arith, eq_refl, find?, if◌then◌else◌, inl,
  inr, none, refl, some, true, update_first, ℕ, ◌∷◌, ◌≡◌, Option, find?-append_none,
}
use bai_rui_cloud_agent_plat.Providers.{
  upsert_provider_channel, ProviderInput, Store, is_provider, renew_provider, stored_key, or_kept,
  new_provider,
}

-- A write whose result passes the test is what `find` gives afterwards.
find?-overwrite :
    {A : Type 0} (p : A → Bool) (f : A → A) (xs : List A) {x : A}
    → ((y : A) → p (f y) ≡ true)
    → find? p xs ≡ some x
    → find? p (update_first p f xs) ≡ some (f x)
find?-overwrite p f [] {x} hit e = absurd (cc)
find?-overwrite p f (y ∷ xs) {x} hit e = elim (Bool-cases (p y)) [
  | inl t ↦ let same : y ≡ x = ground arith in rw t (rw (hit y) (ap (λ z. some (f z)) same))
  | inr n ↦ rw n (rw n (find?-overwrite p f xs hit (rw (n, if◌then◌else◌) at e)))
]

or_kept-none : {A : Type 0} (a : Option A) → a ≡ or_kept a none
unfolding or_kept
or_kept-none (some x) = refl
or_kept-none none = refl

-- The provider channel that an upsert answers is the one of its organization and name that a lookup
-- finds afterwards. It is pending, and its API key is the one given; without one, the key of the
-- channel that was there.
pub upsert_provider_channel-latest :
    (now : ℕ) (fresh : String) (i : ProviderInput) (s : Store)
    → let r = upsert_provider_channel now fresh i s in
      let old = find? (is_provider i.organization_id i.name) s.provider_channels in
      (find? (is_provider i.organization_id i.name) r.0.provider_channels ≡ some r.1)
      × (r.1.status ≡ "pending")
      × (r.1.api_key_envelope ≡ or_kept i.api_key_envelope (stored_key old))
unfolding upsert_provider_channel
upsert_provider_channel-latest now fresh i s =
    elim (Option-cases (find? (is_provider i.organization_id i.name) s.provider_channels)) [
      | inr (c, e) ↦
          rw (upsert_provider_channel, e)
            (
              find?-overwrite (is_provider i.organization_id i.name) (renew_provider now i)
                  s.provider_channels (λ y. rw (eq_refl i.organization_id, eq_refl i.name) refl) e,
              refl,
              refl,
            )
      | inl e ↦
          rw (upsert_provider_channel, e)
            (
              rw
                  (find?-append_none (is_provider i.organization_id i.name) s.provider_channels
                    (new_provider now fresh i ∷ []) e)
                  (rw (eq_refl i.organization_id, eq_refl i.name) refl),
              refl,
              or_kept-none i.api_key_envelope,
            )
    ]
