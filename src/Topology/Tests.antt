-- ===== src/Topology/Tests.antt =====
-- Runs of the theorems on the declarations.
use go_amqp_adapter.Base.{[]}
use go_amqp_adapter.Base.Int.{pos}
use go_amqp_adapter.Config.{second}
use go_amqp_adapter.Topology.{init_queue_with_retry}
use go_amqp_adapter.Topology.Plan.{retry_plan, run_plan, Follows, init_queue_with_retry-Follows}
use go_amqp_adapter.Samples.{harsh}

init_queue_with_retry-Follows_example :
    Follows harsh "jobs"
      (init_queue_with_retry harsh "jobs" 2 (pos second) [])
      (run_plan harsh (retry_plan "jobs" 2 (pos second)) [])
init_queue_with_retry-Follows_example = init_queue_with_retry-Follows harsh "jobs" 2 (pos second) []
