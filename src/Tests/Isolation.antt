-- ===== src/Tests/Isolation.antt =====
-- Two deploys at the same time, over an engine that keeps the deployments' specifications.
use mathlib.Core.List.Memᴰ.{head, tail}
use text.Mathlib.TextEquality.{eq_iff}
use temporalops.Base.{String, ◌≡◌, ◌≢◌, pos, refl, true, List, [], ◌∷◌, str_eq}
use temporalops.Kube.View.{Write, image_to, scale_to, apply}
use temporalops.Kube.View.Isolation.{nothing, one_side, other_side}
use temporalops.Workflows.Canary.{CanaryInput, canary_deploy}
use temporalops.Workflows.Canary.Isolation.{ByOther, SameService, deploys_isolated}
use temporalops.Tests.Cluster.{at_rest}
use temporalops.Tests.Rollout.{overflow, hosted, shop}

abbrev web : CanaryInput
web = record shop { service = "web"; image_tag = "web:3" }

abbrev of_shop : List Write
of_shop = image_to "shop-canary" "app:2" ∷ scale_to "shop-canary" (pos 1) ∷ []

-- The full rollout's image, set twice.
abbrev of_web : List Write
of_web = image_to "web-stable" "web:3" ∷ image_to "web-stable" "web:3" ∷ []

abbrev both : List Write
both =
    image_to "web-stable" "web:3"
    ∷ image_to "shop-canary" "app:2"
    ∷ image_to "web-stable" "web:3"
    ∷ scale_to "shop-canary" (pos 1)
    ∷ []

shop-web : ◌≢◌ {A = String} "shop" "web"
shop-web e = let same : str_eq "shop" "web" ≡ true = (eq_iff "shop" "web").1 e in cc same

by_web : ByOther overflow "shop" (image_to "web-stable" "web:3")
unfolding canary_deploy temporalops.Workflows.Engine.set_query_handler
    temporalops.Workflows.Engine.execute temporalops.Client.canary_name
    temporalops.Client.stable_name temporalops.Base.to_int32
by_web =
    (hosted, web, at_rest, shop-web, (_, tail (tail (tail (tail (tail (head refl))))), head refl))

deploys_isolated_example : SameService "shop" (apply both at_rest) (apply of_shop at_rest)
deploys_isolated_example =
    deploys_isolated overflow "shop" of_shop of_web both at_rest (by_web, (by_web, tt))
      (other_side (one_side (other_side (one_side nothing))))
