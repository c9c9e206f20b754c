-- ===== src/Channel/Validity/Runs.antt =====
-- Sequences of calls, and the validity of the channel store.
use bai_rui_cloud_agent_plat.Prelude.{ℕ, String, List, [], ◌∷◌, Option-cases, inl, inr, find?}
use bai_rui_cloud_agent_plat.Channel.Store.{Store, Binding, Health}
use bai_rui_cloud_agent_plat.Channel.Bindings.{
  BindingInput, same_channel, upsert_agent_channel_binding, owned_channel,
  delete_agent_channel_binding, HealthInput, is_health_target, save_channel_health_report,
}
use bai_rui_cloud_agent_plat.Channel.Calls.{
  Call, accept, ensure, lease, complete, fail, lease_out, receipt, upsert, delete, health, apply,
  run, empty,
}
use bai_rui_cloud_agent_plat.Channel.Validity.{IsValid}
use bai_rui_cloud_agent_plat.Channel.Validity.Inbound.{
  accept_channel_ingress-IsValid, ensure_channel_conversation-IsValid,
  lease_channel_ingress-IsValid,
}
use bai_rui_cloud_agent_plat.Channel.Validity.Settling.{
  complete_channel_ingress-IsValid, fail_channel_ingress-IsValid,
}
use bai_rui_cloud_agent_plat.Channel.Validity.Outbound.{
  lease_channel_deliveries-IsValid, record_channel_delivery_receipt-IsValid,
}

-- Validity does not read the bindings or the health observations.
with_bindings :
    (s : Store) (bs : List Binding) (hs : List Health)
    → IsValid s
    → IsValid (record s { bindings = bs; health = hs })
with_bindings s bs hs v = record {
  inbox_ok = v.inbox_ok;
  outbox_ok = v.outbox_ok;
  messages_distinct = v.messages_distinct;
  replies_distinct = v.replies_distinct;
  attempts_distinct = v.attempts_distinct;
  letters_distinct = v.letters_distinct;
  conversations_distinct = v.conversations_distinct;
  inbound_letters = v.inbound_letters;
  outbound_letters = v.outbound_letters;
}

upsert_agent_channel_binding-IsValid :
    (now : ℕ) (fresh : String) (i : BindingInput) (s : Store)
    → IsValid s
    → IsValid (upsert_agent_channel_binding now fresh i s).0
unfolding upsert_agent_channel_binding
upsert_agent_channel_binding-IsValid now fresh i s v =
    elim (Option-cases (find? (same_channel i.agent_id i.channel) s.bindings)) [
      | inl e ↦ rw (e, upsert_agent_channel_binding) (with_bindings s _ s.health v)
      | inr (b, e) ↦ rw (e, upsert_agent_channel_binding) (with_bindings s _ s.health v)
    ]

delete_agent_channel_binding-IsValid :
    (org user agent channel : String) (s : Store)
    → IsValid s
    → IsValid (delete_agent_channel_binding org user agent channel s).0
unfolding delete_agent_channel_binding
delete_agent_channel_binding-IsValid org user agent channel s v =
    elim (Option-cases (find? (owned_channel org user agent channel) s.bindings)) [
      | inl e ↦ rw (e, delete_agent_channel_binding) v
      | inr (b, e) ↦ rw (e, delete_agent_channel_binding) (with_bindings s _ s.health v)
    ]

save_channel_health_report-IsValid :
    (now : ℕ) (fresh : String) (h : HealthInput) (s : Store)
    → IsValid s
    → IsValid (save_channel_health_report now fresh h s).0
unfolding save_channel_health_report
save_channel_health_report-IsValid now fresh h s v =
    elim (Option-cases (find? (is_health_target h) s.bindings)) [
      | inl e ↦ rw (e, save_channel_health_report) v
      | inr (b, e) ↦ rw (e, save_channel_health_report) (with_bindings s _ _ v)
    ]

pub apply-IsValid : (c : Call) (s : Store) → IsValid s → IsValid (apply c s)
unfolding apply
apply-IsValid (accept now fresh i) s v = accept_channel_ingress-IsValid now fresh i s v
apply-IsValid (ensure now fresh fresh_runtime i) s v =
    ensure_channel_conversation-IsValid now fresh fresh_runtime i s v
apply-IsValid (lease now fresh l) s v = lease_channel_ingress-IsValid now fresh l s v
apply-IsValid (complete now fresh c) s v = complete_channel_ingress-IsValid now fresh c s v
apply-IsValid (fail now fresh f) s v = fail_channel_ingress-IsValid now fresh f s v
apply-IsValid (lease_out now fresh l) s v = lease_channel_deliveries-IsValid now fresh l s v
apply-IsValid (receipt now fresh fresh_letter r) s v =
    record_channel_delivery_receipt-IsValid now fresh fresh_letter r s v
apply-IsValid (upsert now fresh i) s v = upsert_agent_channel_binding-IsValid now fresh i s v
apply-IsValid (delete org user agent channel) s v =
    delete_agent_channel_binding-IsValid org user agent channel s v
apply-IsValid (health now fresh h) s v = save_channel_health_report-IsValid now fresh h s v

pub run_from-IsValid : (cs : List Call) (s : Store) → IsValid s → IsValid (run cs s)
unfolding run
run_from-IsValid [] s v = v
run_from-IsValid (c ∷ cs) s v = run_from-IsValid cs (apply c s) (apply-IsValid c s v)

pub empty-IsValid : IsValid empty
unfolding empty
empty-IsValid = record {
  inbox_ok = tt;
  outbox_ok = tt;
  messages_distinct = tt;
  replies_distinct = tt;
  attempts_distinct = tt;
  letters_distinct = tt;
  conversations_distinct = tt;
  inbound_letters = tt;
  outbound_letters = tt;
}

-- After any sequence of channel calls from the empty store: an inbox or outbox item holds a lease
-- token and expiry exactly while it is leased, its attempts stay within their maximum, and it is
-- dead only with all attempts used; no message of a binding is stored twice, no inbox item has two
-- replies, no delivery attempt two receipts, no conversation two entries; and every item given up
-- has exactly one dead letter.
pub run-IsValid : (cs : List Call) → IsValid (run cs empty)
run-IsValid cs = run_from-IsValid cs empty empty-IsValid
