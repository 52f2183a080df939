-- ===== src/Tests/Statuses.antt =====
-- The state machine at concrete statuses.
use ttasks.Common.{◌≡◌, refl}
use ttasks.Status.{TaskStatus, cancelled, is_sink}
use ttasks.Status.Machine.{here, Trace-sink}

cancelled_stays : ◌≡◌ {A = TaskStatus} cancelled cancelled
cancelled_stays = Trace-sink (unfold is_sink in refl) here
