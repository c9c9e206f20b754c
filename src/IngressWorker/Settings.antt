-- ===== src/IngressWorker/Settings.antt =====
-- The settings of the worker (packages/channels/ingress-worker.mjs).

use bai_rui_cloud_agent_plat.Channel.Store.{number_or}
use bai_rui_cloud_agent_plat.Prelude.{Bool, Option, false, max, min, ℕ, ◌*◌, ◌-◌, ◌^◌}

pub record Options : Type 0 where
  pub batch_size : Option ℕ
  pub lease_seconds : Option ℕ
  pub base_retry_ms : Option ℕ
  pub max_retry_ms : Option ℕ
  pub interval_ms : Option ℕ

pub record Worker : Type 0 where
  pub interval_ms : ℕ
  pub batch_size : ℕ
  pub lease_seconds : ℕ
  pub base_retry_ms : ℕ
  pub max_retry_ms : ℕ
  pub timer : Bool
  pub running : Bool

unfoldable pub new_worker : Options → Worker
new_worker o =
    let base = max 100 (number_or o.base_retry_ms 1000) in
    record {
      interval_ms = max 100 (number_or o.interval_ms 1000);
      batch_size = max 1 (min (number_or o.batch_size 8) 100);
      lease_seconds = max 5 (min (number_or o.lease_seconds 90) 300);
      base_retry_ms = base;
      max_retry_ms = max base (number_or o.max_retry_ms 300000);
      timer = false;
      running = false;
    }

unfoldable pub retry_delay : Worker → ℕ → ℕ
retry_delay w attempts = min w.max_retry_ms (w.base_retry_ms * 2 ^ (attempts - 1))
