-- ===== src/Tests/Courses.antt =====
-- A deploy that a person rejects, over an engine that keeps the deployments' specifications, and a
-- deploy whose activities work.
use temporalops.Base.{ok, All, ◌≤◌, refl, false, pure, length}
use temporalops.Kube.View.{View, apply}
use temporalops.Worker.Tasks.{writes_of}
use temporalops.Workflows.Engine.{Engine, Run, Call, Step, ApprovalSignal, received, disconnected}
use temporalops.Workflows.Canary.{canary_deploy}
use temporalops.Workflows.Canary.Balance.{fresh}
use temporalops.Workflows.Canary.Cluster.{IsHost}
use temporalops.Workflows.Canary.Cluster.Rollback.{Leaves, canary_deploy-Leaves}
use temporalops.Workflows.Canary.Cluster.Footprint.{BackWorks}
use temporalops.Workflows.Canary.Course.{Course, Took, Takes}
use temporalops.Workflows.Canary.Course.Stages.{canary_deploy-Takes}
use temporalops.Workflows.Canary.Course.Shown.{Answers, Shows, canary_deploy-Shows}
use temporalops.Workflows.Canary.Phases.{InOrder, last_phase}
use temporalops.Workflows.Canary.Course.Outcomes.{
  IsSmooth, Decided, canary_deploy-Decided, canary_deploy-bounded,
}
use temporalops.Tests.Cluster.{whole, at_rest}
use temporalops.Tests.Rollout.{overflow, reply, reply-After, hosted, shop}

abbrev rejection : ApprovalSignal
rejection = record { approve = false; actor = "bob" }

abbrev strict : Engine
strict = record {
  State = View;
  set_query_handler = λ _. pure tt;
  execute = λ _ _ c v. (reply c, apply (writes_of overflow c) v);
  select = λ _ _ v. (received rejection, v);
}

strict-IsHost : IsHost overflow strict whole "shop"
strict-IsHost = record {
  execute-After = λ scope options c v _. reply-After c v;
  query-Reads = λ name v. refl;
  select-Reads = λ name d v. refl;
}

canary_deploy-Takes_example :
    Takes strict shop (canary_deploy strict shop (fresh strict shop at_rest))
canary_deploy-Takes_example = canary_deploy-Takes strict shop at_rest

back_succeeds : All BackWorks (canary_deploy strict shop (fresh strict shop at_rest)).1.steps
unfolding canary_deploy temporalops.Workflows.Engine.set_query_handler
    temporalops.Workflows.Engine.execute temporalops.Workflows.Saga.compensate
    temporalops.Workflows.Saga.register temporalops.Workflows.Saga.new_saga
back_succeeds = (
  λ _. refl,
  (λ _. refl, (λ _. refl, (λ _. refl, (λ _. refl, (λ _. refl, (λ _. refl, (λ _. refl, tt))))))),
)

canary_deploy-Leaves_example :
    (course : Course strict shop) × Took strict shop course
      (canary_deploy strict shop (fresh strict shop at_rest))
    × Leaves overflow strict shop course at_rest
        (canary_deploy strict shop (fresh strict shop at_rest)).1.engine
canary_deploy-Leaves_example =
    canary_deploy-Leaves overflow strict shop whole strict-IsHost at_rest back_succeeds

pub shop-IsSmooth : IsSmooth hosted shop
shop-IsSmooth = record {
  query = λ s. refl;
  policy = λ s. refl;
  scale = λ s. refl;
  bake = λ s. refl;
  shift = λ s. refl;
  promote = λ s. refl;
}

canary_deploy-Decided_example :
    Decided hosted shop (canary_deploy hosted shop (fresh hosted shop at_rest)).0
canary_deploy-Decided_example = canary_deploy-Decided hosted shop at_rest shop-IsSmooth

canary_deploy-bounded_example :
    length (canary_deploy strict shop (fresh strict shop at_rest)).1.steps ≤ 9
canary_deploy-bounded_example = canary_deploy-bounded strict shop at_rest

canary_deploy-Shows_example :
    InOrder shop (canary_deploy strict shop (fresh strict shop at_rest)).1.phases
    × Shows
        (canary_deploy strict shop (fresh strict shop at_rest)).0
        (last_phase (canary_deploy strict shop (fresh strict shop at_rest)).1.phases)
    × Answers strict (ok tt) (canary_deploy strict shop (fresh strict shop at_rest)).1
canary_deploy-Shows_example = canary_deploy-Shows strict shop at_rest
