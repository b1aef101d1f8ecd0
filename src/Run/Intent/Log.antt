-- ===== src/Run/Intent/Log.antt =====
-- wf-engine/internal/run/service.go: the event log that `persistRun` appends to.
use fishyume.Run.Disk.{Disk}
