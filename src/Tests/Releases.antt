-- ===== src/Tests/Releases.antt =====
-- The theorems on a release with its deploys, at a concrete release.
use temporalops.Base.{◌≡◌, refl, sym, true, [], ◌∷◌, Result}
use temporalops.Workflows.Canary.{CanaryInput, CanaryResult, canary_deploy}
use temporalops.Workflows.Canary.Balance.{fresh}
use temporalops.Workflows.Canary.Course.Outcomes.{IsSmooth}
use temporalops.Workflows.Orchestrator.{ReleaseInput, Children, child_input, release_orchestrator}
use temporalops.Workflows.Orchestrator.Deploys.{
  IsOfDeploy, RunsDeploys, EachUnattended, release_orchestrator-EachUnattended,
}
use temporalops.Workflows.Orchestrator.Progress.{Completes, release_orchestrator_promotes}
use temporalops.Tests.Cluster.{at_rest}
use temporalops.Tests.Rollout.{hosted, shop}

-- A future is the input that it was started with; asked for, the deploy is run.
abbrev deploys : Children
deploys = record {
  State = Unit {0};
  Future = CanaryInput;
  start = λ _ input s. (input, s);
  get = λ input s. ((canary_deploy hosted input (fresh hosted input at_rest)).0, s);
}

abbrev two_services : ReleaseInput
two_services = record { release_id = "7"; services = shop ∷ record shop { service = "cart" } ∷ [] }

ran :
    (svc : CanaryInput) (r : Result CanaryResult)
    → (canary_deploy hosted svc (fresh hosted svc at_rest)).0 ≡ r
    → IsOfDeploy hosted svc r
ran svc (Result.ok r) e = (at_rest, e)
ran svc (Result.err x) e = tt

deploys-RunsDeploys : RunsDeploys hosted deploys
deploys-RunsDeploys = record {
  Of = λ f input. f ≡ input;
  start-Of = λ id svc s. refl;
  get-IsOfDeploy = λ f svc s same.
      ran svc (deploys.get f s).0
        (sym (λ i. (canary_deploy hosted (same i) (fresh hosted (same i) at_rest)).0));
}

release_orchestrator-EachUnattended_example :
    EachUnattended two_services.services (release_orchestrator deploys two_services tt).0.results
release_orchestrator-EachUnattended_example =
    release_orchestrator-EachUnattended hosted deploys deploys-RunsDeploys two_services tt

deploys-Completes : Completes hosted deploys
deploys-Completes = record {
  Of = λ f input. f ≡ input;
  start-Of = λ id svc s. refl;
  get_done = λ f svc s same.
      (at_rest, λ i. (canary_deploy hosted (same i) (fresh hosted (same i) at_rest)).0);
}

smooth : (svc : CanaryInput) → IsSmooth hosted svc
smooth svc = record {
  query = λ s. refl;
  policy = λ s. refl;
  scale = λ s. refl;
  bake = λ s. refl;
  shift = λ s. refl;
  promote = λ s. refl;
}

release_orchestrator_promotes_example :
    (release_orchestrator deploys two_services tt).0.all_promoted ≡ true
release_orchestrator_promotes_example =
    release_orchestrator_promotes hosted deploys deploys-Completes two_services tt
      (smooth (child_input shop), (smooth (child_input (record shop { service = "cart" })), tt))
