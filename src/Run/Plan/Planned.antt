-- ===== src/Run/Plan/Planned.antt =====
-- wf-engine/internal/run/service.go, `applyAction`: the mutations of a plan are ones that a replay can
-- carry out.
use fishyume.Base.{ℕ, ◌≡◌, String, List, some, ok}
use fishyume.Base.Assoc.{lookup}
use fishyume.Run.State.{NodeSnapshot}
use fishyume.Run.Action.{ResumeAction}
use fishyume.Run.Disk.{Disk, Act, NodeMutation}
use fishyume.Run.Plan.{Plan, mutate}
use fishyume.Run.Plan.Downstream.{IsKeyed, IsPlanned}

module _ (now : ℕ) (d : Disk) (keyed : IsKeyed d) where
  module _ (node : NodeSnapshot) (found : lookup node.id d.nodes ≡ some node)
      (action : ResumeAction) (event_type summary : String) (e : Disk)
      (ms : List NodeMutation) where
    abbrev Plans : Act Plan → Type 0
    Plans m = m d ≡ (ok (mutate ms event_type summary), e) → IsPlanned d e ms
