-- ===== src/Control/OwnerConfiguration/Latest.antt =====
-- The waiting changes of an owner (packages/db/memory-repository.mjs).
-- What the scope of a command's revision is does not depend on the status of revisions.
use bai_rui_cloud_agent_plat.Control.Store.{Store}
