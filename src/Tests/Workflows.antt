-- ===== src/Tests/Workflows.antt =====
-- The theorems on the workflows, at concrete inputs.
use mathlib.Core.List.{Perm}
use temporalops.Base.{
  pos, String, ◌≡◌, ◌↔◌, true, false, List, [], ◌∷◌, ◌++◌, map, reverse, Result, ok, err, new_error,
  Exec, pure, All, length,
}
use temporalops.Workflows.Engine.{Engine, Call, Reply, received}
use temporalops.Workflows.Saga.{Saga, compensate}
use temporalops.Workflows.Saga.Order.{run_all, compensate-reverse}
use temporalops.Workflows.Canary.{
  CanaryInput, CanaryResult, promoted, canary_deploy, scale_down, shift_back,
}
use temporalops.Workflows.Canary.Ending.{Ends}
use temporalops.Workflows.Canary.Balance.{fresh, canary_deploy-Ends}
use temporalops.Workflows.Orchestrator.{ReleaseInput, ReleaseResult, Children, release_orchestrator}
use temporalops.Workflows.Orchestrator.Tallies.{services_where}
use temporalops.Workflows.Orchestrator.Outcomes.{children, waited, release_orchestrator_reports}

-- Every activity succeeds but the full rollout, and the gate receives an approval.
abbrev reply : (c : Call) → Result (Reply c)
reply (Call.policy_check _) = ok (record { allowed = true; reason = "admitted" })
reply (Call.scale_canary _) = ok (record { ready_replicas = pos 1 })
reply (Call.scale_down_canary _) = ok tt
reply (Call.health_check _) = ok (record { healthy = true; reason = "ready"; error_rate = 0 })
reply (Call.shift_traffic _) = ok tt
reply (Call.shift_traffic_back _) = ok tt
reply (Call.promote _) = err (new_error "no quota")
reply (Call.greet _) = ok "hello"
reply (Call.alert _) = ok tt
reply (Call.record_approval _) = ok tt

abbrev scripted : Engine
scripted = record {
  State = Unit {0};
  set_query_handler = λ _. pure tt;
  execute = λ _ _ c e. (reply c, e);
  select = λ _ _ e. (received (record { approve = true; actor = "ada" }), e);
}

abbrev shop : CanaryInput
shop = record {
  service = "shop";
  image_tag = "app:2";
  target_replicas = pos 4;
  canary_replicas = pos 1;
  bake_seconds = pos 30;
  approval_timeout = pos 60000000000;
  auto_promote = false;
  simulate_policy_reject = false;
  simulate_health_fail = false;
  simulate_traffic_fail = false;
}

canary_deploy-Ends_example :
    Ends scripted shop (canary_deploy scripted shop (fresh scripted shop tt))
canary_deploy-Ends_example = canary_deploy-Ends scripted shop tt

abbrev two_steps : Saga scripted
two_steps = record {
  compensations =
      record { name = "scale-down-canary"; fn = scale_down scripted shop }
      ∷ record { name = "shift-traffic-back"; fn = shift_back scripted shop }
      ∷ [];
}

compensate-reverse_example :
    compensate scripted two_steps (fresh scripted shop tt)
    ≡ (ok tt, run_all scripted (reverse two_steps.compensations) (fresh scripted shop tt))
compensate-reverse_example = compensate-reverse scripted two_steps (fresh scripted shop tt)

-- The first child is promoted, and the others fail.
abbrev child : Exec (List String) CanaryResult
child [] = (err (new_error "terminated"), [])
child (s ∷ rest) =
    (ok (record { service = s; status = promoted; reason = "done"; actor = "auto-release" }), [])

abbrev family : Children
family = record {
  State = List String;
  Future = Unit {0};
  start = λ _ input s. (tt, s ++ (input.service ∷ []));
  get = λ _. child;
}

abbrev release : ReleaseInput
release = record { release_id = "7"; services = shop ∷ record shop { service = "cart" } ∷ [] }

abbrev report : ReleaseResult
report = (release_orchestrator family release []).0

release_orchestrator_reports_example :
    (report.results
      ≡ waited family release.services
          (children family "7" release.services []).0
          (children family "7" release.services []).1)
    × (length report.results ≡ 2)
    × (report.promoted_services ≡ services_where true report.results)
    × (report.not_promoted ≡ services_where false report.results)
    × Perm (report.promoted_services ++ report.not_promoted) (map (λ x. x.service) report.results)
    × ((report.all_promoted ≡ true) ↔ All (λ x. x.status ≡ promoted) report.results)
release_orchestrator_reports_example = release_orchestrator_reports family release []
