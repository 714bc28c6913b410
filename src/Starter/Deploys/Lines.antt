-- ===== src/Starter/Deploys/Lines.antt =====
-- The command line that names every flag of `starter canary` asks for the deploy that it spells.
use temporalops.Base.{
  pos, String, ◌<>◌, show, duration_text, ◌≡◌, refl, Bool, true, false, Option, none, some, List,
  [], ◌∷◌, sym, ap, ◌∙◌,
}
use temporalops.Workflows.Canary.{CanaryInput}
use temporalops.Starter.Flags.{
  Readers, Values, parse, Parsed, parsed, Progress, step, go_on, follow, loop,
}
use temporalops.Starter.Deploys.{canary_flags, canary_request}
use temporalops.Starter.Layout.{bool_text}

abbrev valued_words : String → CanaryInput → List String
valued_words id input =
    "--id"
    ∷ id
    ∷ "--service"
    ∷ input.service
    ∷ "--tag"
    ∷ input.image_tag
    ∷ "--replicas"
    ∷ show input.target_replicas
    ∷ "--canary-replicas"
    ∷ show input.canary_replicas
    ∷ "--bake"
    ∷ show input.bake_seconds
    ∷ "--approval-timeout"
    ∷ duration_text input.approval_timeout
    ∷ []

-- The number and duration texts are those that Go prints.
abbrev pub canary_line : String → CanaryInput → Bool → List String
canary_line id input wait =
    ("--wait=" <> bool_text wait)
    ∷ ("--fail-policy=" <> bool_text input.simulate_policy_reject)
    ∷ ("--fail-health=" <> bool_text input.simulate_health_fail)
    ∷ ("--fail-traffic=" <> bool_text input.simulate_traffic_fail)
    ∷ valued_words id input

abbrev pub flag_values : String → CanaryInput → Bool → Values canary_flags
flag_values id i wait = (
  id,
  (
    i.service,
    (
      i.image_tag,
      (
        i.target_replicas,
        (
          i.canary_replicas,
          (
            i.bake_seconds,
            (
              i.approval_timeout,
              (
                wait,
                (i.simulate_policy_reject, (i.simulate_health_fail, (i.simulate_traffic_fail, tt))),
              ),
            ),
          ),
        ),
      ),
    ),
  ),
)

abbrev pub request_of : Parsed (Values canary_flags) → Option (String × CanaryInput × Bool)
request_of (parsed vs) = some (canary_request vs)
request_of _ = none

module _ (R : Readers) where
  -- The switches are set, and all else has its default.
  abbrev switched : Bool → Bool → Bool → Bool → Progress R canary_flags
  switched wait policy health traffic = (
    (
      "",
      (
        "web",
        (
          "nginx:1.27-alpine",
          (pos 3, (pos 1, (pos 15, (pos 900000000000, (wait, (policy, (health, (traffic, tt)))))))),
        ),
      ),
    ),
    none,
  )

  loop_go_on :
      (p q : Progress R canary_flags) (arg : String) (args : List String)
      → step R canary_flags p arg ≡ go_on q
      → loop R canary_flags p (arg ∷ args) ≡ loop R canary_flags q args
  unfolding loop
  loop_go_on p q arg args e = ap (λ n. follow R canary_flags n (λ r. loop R canary_flags r args)) e

  wait_word :
      (x : Bool)
      → step R canary_flags (switched false false false false) ("--wait=" <> bool_text x)
        ≡ go_on (switched x false false false)
  unfolding step
  wait_word true = refl
  wait_word false = refl

  policy_word :
      (w x : Bool)
      → step R canary_flags (switched w false false false) ("--fail-policy=" <> bool_text x)
        ≡ go_on (switched w x false false)
  unfolding step
  policy_word w true = refl
  policy_word w false = refl

  health_word :
      (w p x : Bool)
      → step R canary_flags (switched w p false false) ("--fail-health=" <> bool_text x)
        ≡ go_on (switched w p x false)
  unfolding step
  health_word w p true = refl
  health_word w p false = refl

  traffic_word :
      (w p h x : Bool)
      → step R canary_flags (switched w p h false) ("--fail-traffic=" <> bool_text x)
        ≡ go_on (switched w p h x)
  unfolding step
  traffic_word w p h true = refl
  traffic_word w p h false = refl

  -- Where the numbers and the duration read back from their texts.
  pub record ReadsBack (input : CanaryInput) : Type 0 where
    pub replicas : R.read_int (show input.target_replicas) ≡ some input.target_replicas
    pub canary : R.read_int (show input.canary_replicas) ≡ some input.canary_replicas
    pub bake : R.read_int (show input.bake_seconds) ≡ some input.bake_seconds
    pub timeout :
        R.read_duration (duration_text input.approval_timeout) ≡ some input.approval_timeout

  valued :
      (id : String) (input : CanaryInput) (wait policy health traffic : Bool)
      → ReadsBack input
      → loop R canary_flags (switched wait policy health traffic) (valued_words id input)
        ≡ parsed (
          id,
          (
            input.service,
            (
              input.image_tag,
              (
                input.target_replicas,
                (
                  input.canary_replicas,
                  (
                    input.bake_seconds,
                    (input.approval_timeout, (wait, (policy, (health, (traffic, tt))))),
                  ),
                ),
              ),
            ),
          ),
        )
  unfolding loop
  valued id input wait policy health traffic h =
      rw (h.replicas, h.canary, h.bake, h.timeout, loop, follow)

  line_lem :
      (id : String) (input : CanaryInput) (wait : Bool)
      → ReadsBack input
      → loop R canary_flags (switched false false false false) (canary_line id input wait)
        ≡ parsed (flag_values id input wait)
  line_lem id input wait h =
      loop_go_on _ _ _ _ (wait_word wait)
      ∙ loop_go_on _ _ _ _ (policy_word wait input.simulate_policy_reject)
      ∙ loop_go_on _ _ _ _
          (health_word wait input.simulate_policy_reject input.simulate_health_fail)
      ∙ loop_go_on _ _ _ _ (
          traffic_word wait input.simulate_policy_reject input.simulate_health_fail
            input.simulate_traffic_fail)
      ∙ valued id input wait _ _ _ h

  pub canary_line-parse :
      (id : String) (input : CanaryInput) (wait : Bool)
      → ReadsBack input
      → parse R canary_flags (canary_line id input wait) ≡ parsed (flag_values id input wait)
  unfolding parse
  canary_line-parse id input wait h = line_lem id input wait h

  -- For a deploy with a gate of its own, whose numbers and duration read back from their texts, the
  -- command line that names every flag is read as exactly its id, its input and `--wait`.
  pub canary_request-parse :
      (id : String) (input : CanaryInput) (wait : Bool)
      → input.auto_promote ≡ false
      → ReadsBack input
      → request_of (parse R canary_flags (canary_line id input wait)) ≡ some (id, input, wait)
  unfolding canary_request
  canary_request-parse id input wait gated h =
      ap request_of (canary_line-parse id input wait h)
      ∙ (λ i. some (id, record input { auto_promote = sym gated i }, wait))
