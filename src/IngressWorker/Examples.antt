-- ===== src/IngressWorker/Examples.antt =====
-- The ingress worker on one message (packages/channels/ingress-worker.mjs).

use bai_rui_cloud_agent_plat.Json.{Value, codes, obj, field, end, str}
use bai_rui_cloud_agent_plat.Channel.Store.{InboxItem}
use bai_rui_cloud_agent_plat.Channel.Examples.{bind, message, job_lease}
use bai_rui_cloud_agent_plat.Channel.Ingress.{
  accept_channel_ingress, ensure_channel_conversation, new_inbox,
}
use bai_rui_cloud_agent_plat.Channel.Bindings.{upsert_agent_channel_binding, binding_value}
use bai_rui_cloud_agent_plat.Channel.Jobs.{
  lease_channel_ingress, complete_channel_ingress, lease_item,
}
use bai_rui_cloud_agent_plat.Channel.Calls.{Call, accept, lease, upsert, run, empty}
use bai_rui_cloud_agent_plat.Scenes.Examples.{an_agent}
use bai_rui_cloud_agent_plat.Fleet.Store.{Agent}
use bai_rui_cloud_agent_plat.IngressWorker.{Host, Course, answered, process}
use bai_rui_cloud_agent_plat.IngressWorker.Messages.{error_code}
use bai_rui_cloud_agent_plat.IngressWorker.Released.{process-released, has_id, is_running}
use bai_rui_cloud_agent_plat.Prelude.{
  List, [], false, find?, map, refl, some, ◌∷◌, ◌≡◌, any, arith, count, none,
}
use bai_rui_cloud_agent_plat.IngressWorker.Settings.{Worker}

abbrev text_message : Value
text_message =
    obj (field (codes "kind") (str (codes "text")) (field (codes "text") (str (codes " hi ")) end))

abbrev some_calls : List Call
some_calls =
    upsert 50 "b" bind
    ∷ accept 100 "i" (record message { content = text_message })
    ∷ lease 110 "l" (job_lease "l1")
    ∷ []

abbrev worker : Worker
worker = record {
  interval_ms = 1000;
  batch_size = 8;
  lease_seconds = 90;
  base_retry_ms = 1000;
  max_retry_ms = 300000;
  timer = false;
  running = false;
}

abbrev host : Host
host = record { invoke = λ i. answered (str (codes "hello")); kind_of = λ v. "direct" }

abbrev course : Course
course = record { ensured_at = 120; settled_at = 130; fresh = λ n. "x"; meanwhile = [] }

abbrev owner : Agent
owner = record an_agent { organization_id = "o1"; owner_user_id = "u1" }

-- The job as the lease call answers it.
unfoldable a_job : InboxItem
unfolding new_inbox lease_item binding_value
a_job =
    lease_item 110 "l1" 60 (
      new_inbox 100 "i" (record message { content = text_message })
        (binding_value 50 "b" bind none))

the_job : find? (has_id "i1") (run some_calls empty).inbox ≡ some a_job
unfolding a_job run empty upsert_agent_channel_binding accept_channel_ingress lease_channel_ingress
the_job = refl

-- The reply waits for delivery.
one_reply :
    map
      (λ o. o.content)
      (process worker host course (some owner) a_job (run some_calls empty)).0.outbox
    ≡ obj
        (field (codes "kind") (str (codes "text")) (field (codes "text") (str (codes "hello")) end))
      ∷ []
unfolding process a_job run empty upsert_agent_channel_binding accept_channel_ingress
    lease_channel_ingress ensure_channel_conversation complete_channel_ingress
one_reply = refl

only_one :
    count
      (has_id "i1")
      (process worker host course (some owner) a_job (run some_calls empty)).0.inbox
    ≡ 1
unfolding process a_job run empty upsert_agent_channel_binding accept_channel_ingress
    lease_channel_ingress ensure_channel_conversation complete_channel_ingress
only_one = refl

process-released_example :
    any
      (is_running "i1")
      (process worker host course (some owner) a_job (run some_calls empty)).0.inbox
    ≡ false
unfolding a_job
process-released_example =
    process-released worker host course (some owner) a_job some_calls (omega (arith, only_one))

codes_are_safe : error_code (some "a b") ≡ "a_b"
unfolding error_code
codes_are_safe = refl

no_code : error_code (some "") ≡ "channel_runtime_failed"
unfolding error_code
no_code = refl
