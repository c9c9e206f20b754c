-- ===== src/Control/Recording/Repeated.antt =====
-- A receipt that comes again, and one that comes from elsewhere
-- (packages/db/memory-repository.mjs).
use bai_rui_cloud_agent_plat.Prelude.{
  ==_iff, Bool-cases, Option-cases, String, eq_refl, find?, inl, inr, refl, some, true, ℕ, ◌===◌,
  ◌≡◌, [], false, find?-append_none, find?-update_first, none, update_first, ◌++◌, ◌∙◌, ◌∷◌, ◌⊎◌,
  if◌then◌else◌, sym,
}
use bai_rui_cloud_agent_plat.Control.Store.{
  accepted, cancelled, expired, failed, queued, running, succeeded, ReceiptInput, CommandState,
  Command, same_state, Store, Receipt, leased, World,
}
use bai_rui_cloud_agent_plat.Control.Recording.{
  receipt, record_command_receipt, is_holder, same_receipt, write_receipt, new_receipt, failure,
  refused, Answer, receipt_effects,
}
use bai_rui_cloud_agent_plat.Control.Receipts.{world_of, is_thrown}

is_holder-write :
    (now : ℕ) (i : ReceiptInput) (c : Command) → is_holder i (write_receipt now i c) ≡ is_holder i c
is_holder-write now i c = refl

same_state_refl : (x : CommandState) → same_state x x ≡ true
same_state_refl queued = refl
same_state_refl leased = refl
same_state_refl accepted = refl
same_state_refl running = refl
same_state_refl succeeded = refl
same_state_refl failed = refl
same_state_refl cancelled = refl
same_state_refl expired = refl

same_receipt-new :
    (now : ℕ) (fresh : String) (i : ReceiptInput) (c : Command)
    → same_receipt i (new_receipt now fresh i c) ≡ true
same_receipt-new now fresh i c =
    rw (eq_refl i.command_id, (==_iff i.attempt i.attempt).1 refl) (same_state_refl i.state)

module _ (now : ℕ) (fresh : String) (i : ReceiptInput) (s : Store) where
  unknown :
      find? (λ c. c.id === i.command_id) s.commands ≡ none
      → record_command_receipt now fresh i s ≡ (s, refused)
  unfolding record_command_receipt
  unknown e = rw (record_command_receipt, e) refl

  elsewhere :
      (c : Command)
      → find? (λ c. c.id === i.command_id) s.commands ≡ some c
      → is_holder i c ≡ false
      → record_command_receipt now fresh i s ≡ (s, refused)
  unfolding record_command_receipt
  elsewhere c e n = rw (record_command_receipt, e, n) refl

  -- A receipt that has been recorded is answered again, and changes nothing.
  recorded :
      (c : Command) (r : Receipt)
      → find? (λ c. c.id === i.command_id) s.commands ≡ some c
      → is_holder i c ≡ true
      → find? (same_receipt i) s.receipts ≡ some r
      → record_command_receipt now fresh i s ≡ (s, receipt r)
  unfolding record_command_receipt
  recorded c r e h d = rw (record_command_receipt, e, h, d) refl

  -- What a new receipt leaves, with some world.
  unfoldable with_receipt : Command → World → Store
  with_receipt c w = record s {
    commands = update_first (λ c. c.id === i.command_id) (write_receipt now i) s.commands;
    receipts = s.receipts ++ new_receipt now fresh i c ∷ [];
    world = w;
  }

  first_time :
      (c : Command)
      → find? (λ c. c.id === i.command_id) s.commands ≡ some c
      → is_holder i c ≡ true
      → find? (same_receipt i) s.receipts ≡ none
      → (w : World) × (a : Answer) × (record_command_receipt now fresh i s ≡ (with_receipt c w, a))
        × ((a ≡ receipt (new_receipt now fresh i c)) ⊎ (a ≡ failure))
  unfolding record_command_receipt with_receipt
  first_time c e h d =
      let after = receipt_effects now i (write_receipt now i c) s.world in
      (
        world_of after,
        if is_thrown after then failure else receipt (new_receipt now fresh i c),
        rw (record_command_receipt, e, h, d) refl,
        elim (Bool-cases (is_thrown after)) [ inl t ↦ inr (rw t refl) | inr n ↦ inl (rw n refl) ],
      )

-- The same receipt a second time, whenever it comes, leaves the store as the first has left it;
-- and where the first was answered with a receipt, so is the second, with the same one.
pub record_command_receipt-repeated :
    (now later : ℕ) (fresh other : String) (i : ReceiptInput) (s : Store)
    → let first = record_command_receipt now fresh i s in
      let second = record_command_receipt later other i first.0 in
      (second.0 ≡ first.0) × ((r : Receipt) → first.1 ≡ receipt r → second.1 ≡ receipt r)
unfolding with_receipt
record_command_receipt-repeated now later fresh other i s =
    elim (Option-cases (find? (λ c. c.id === i.command_id) s.commands)) [
      | inl e ↦ rw (unknown now fresh i s e) (rw (unknown later other i s e) (refl, λ r h. h))
      | inr (c, e) ↦ elim (Bool-cases (is_holder i c)) [
        | inr n ↦
            rw (elsewhere now fresh i s c e n)
              (rw (elsewhere later other i s c e n) (refl, λ r h. h))
        | inl h ↦ elim (Option-cases (find? (same_receipt i) s.receipts)) [
          | inr (r, d) ↦
              rw (recorded now fresh i s c r e h d)
                (rw (recorded later other i s c r e h d) (refl, λ r h. h))
          | inl d ↦
              let (w, a, one, answer) = first_time now fresh i s c e h d in
              let there =
                find?-update_first (λ c. c.id === i.command_id) (write_receipt now i) s.commands
                  (λ c. refl) e in
              let noted =
                find?-append_none (same_receipt i) s.receipts (new_receipt now fresh i c ∷ []) d
                ∙ rw (same_receipt-new now fresh i c) refl in
              let two =
                recorded later other i (with_receipt now fresh i s c w) (write_receipt now i c)
                  (new_receipt now fresh i c) there h noted in
              rw one (rw two (refl, λ r k. elim answer [ inl x ↦ sym x ∙ k | inr x ↦ absurd (cc) ]))
        ]
      ]
    ]
