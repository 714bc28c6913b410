-- ===== src/Workflows/Canary/History.antt =====
-- What the history of a deploy has to look like: the forward steps, and behind them the inverses
-- of those that took effect, newest first.
use mathlib.Core.List.{append_assoc, append-nil}
use temporalops.Base.{
  pos, String, ◌≡◌, refl, sym, ap, ◌∙◌, Bool, true, false, ◌||◌, List, [], ◌∷◌, ◌++◌, map, Result,
  ok, All, arith,
}
use temporalops.Workflows.Options.{ActivityOptions}
use temporalops.Workflows.Engine.{
  Engine, Run, Flow, Scope, attached, disconnected, Call, Step, step_of,
}
use temporalops.Workflows.Saga.{Saga, new_saga, register, compensate}
use temporalops.Workflows.Saga.Order.{compensate-register}
use temporalops.Workflows.Canary.{CanaryInput, CanaryResult, status_text}

-- The first calls of a deploy.
abbrev pub policy_call : CanaryInput → Call
policy_call input = Call.policy_check (record {
  service = input.service;
  image_tag = input.image_tag;
  simulate_reject = input.simulate_policy_reject;
})

abbrev pub scale_call : CanaryInput → Call
scale_call input = Call.scale_canary (record {
  service = input.service;
  image_tag = input.image_tag;
  replicas = input.canary_replicas;
})

abbrev pub shift_call : CanaryInput → Call
shift_call input = Call.shift_traffic (record {
  service = input.service;
  canary_weight = pos 50;
  target_replicas = input.target_replicas;
  simulate_fail = input.simulate_traffic_fail;
})

abbrev pub promote_call : CanaryInput → Call
promote_call input = Call.promote (record {
  service = input.service;
  image_tag = input.image_tag;
  target_replicas = input.target_replicas;
})

-- The other calls.
abbrev pub bake_call : CanaryInput → Call
bake_call input = Call.health_check (record {
  service = input.service;
  bake_seconds = input.bake_seconds;
  simulate_fail = input.simulate_health_fail;
})

abbrev pub approval_call : String → String → String → Call
approval_call actor decision detail =
    Call.record_approval (record { actor = actor; decision = decision; detail = detail })

abbrev pub down_call : CanaryInput → Call
down_call input =
    Call.scale_down_canary (record { service = input.service; image_tag = ""; replicas = pos 0 })

abbrev pub back_call : CanaryInput → Call
back_call input = Call.shift_traffic_back (record {
  service = input.service;
  canary_weight = pos 0;
  target_replicas = input.target_replicas;
  simulate_fail = false;
})

abbrev pub is_promote : Call → Bool
is_promote (Call.promote _) = true
is_promote _ = false

-- The full rollout was asked for.
abbrev pub promotes : List Step → Bool
promotes [] = false
promotes (s ∷ steps) = is_promote s.call || promotes steps

pub promotes-snoc :
    (steps : List Step) (s : Step)
    → promotes steps ≡ false
    → is_promote s.call ≡ false
    → promotes (steps ++ (s ∷ [])) ≡ false
promotes-snoc [] s h k = rw k
promotes-snoc (t ∷ steps) s h k = ground (arith, promotes-snoc steps s (ground arith) k)

abbrev pub calls : List Step → List Call
calls = map (λ s. s.call)

-- The call that undoes a forward step that has taken effect, if the step has an effect to undo
-- before the full rollout.
abbrev pub inverse : Call → List Call
inverse (Call.scale_canary i) =
    Call.scale_down_canary (record { service = i.service; image_tag = ""; replicas = pos 0 }) ∷ []
inverse (Call.shift_traffic i) =
    Call.shift_traffic_back (record {
      service = i.service;
      canary_weight = pos 0;
      target_replicas = i.target_replicas;
      simulate_fail = false;
    })
    ∷ []
inverse _ = []

abbrev pub inverse_if : Bool → Call → List Call
inverse_if true c = inverse c
inverse_if false c = []

-- What is owed after a history, newest first.
abbrev pub owed : List Step → List Call
owed [] = []
owed (s ∷ rest) = owed rest ++ inverse_if s.succeeded s.call

abbrev pub IsForward : Step → Type 0
IsForward s = s.scope ≡ attached

abbrev pub IsDetached : Step → Type 0
IsDetached s = s.scope ≡ disconnected

abbrev pub alert_call : CanaryResult → Call
alert_call r =
    Call.alert (record { service = r.service; status = status_text r.status; reason = r.reason })

pub owed-snoc :
    (steps : List Step) (s : Step)
    → owed (steps ++ (s ∷ [])) ≡ inverse_if s.succeeded s.call ++ owed steps
owed-snoc [] s = sym (append-nil _)
owed-snoc (t ∷ steps) s =
    ap (λ xs. xs ++ inverse_if t.succeeded t.call) (owed-snoc steps s)
    ∙ append_assoc (inverse_if s.succeeded s.call) (owed steps) _

pub All-append {ℓ} :
    {A : Type ℓ} (P : A → Type 0) (xs ys : List A) → All P xs → All P ys → All P (xs ++ ys)
All-append P [] ys h k = k
All-append P (x ∷ xs) ys (p, h) k = (p, All-append P xs ys h k)

module _ (T : Engine) where
  -- Unwinding this saga always comes to an end without an error, and asks for these calls, on the
  -- disconnected context.
  pub record Undoes (saga : Saga T) (cs : List Call) (s : Run T) : Type 0 where
    pub end : Run T
    pub back : List Step
    pub returns : compensate T saga s ≡ (ok tt, end)
    pub same_phases : end.phases ≡ s.phases
    pub adds : end.steps ≡ s.steps ++ back
    pub asks : calls back ≡ cs
    pub detached : All IsDetached back

  pub new_saga-Undoes : (s : Run T) → Undoes (new_saga T) [] s
  unfolding new_saga compensate
  new_saga-Undoes s = record {
    end = s;
    back = [];
    returns = refl;
    same_phases = refl;
    adds = sym (append-nil s.steps);
    asks = refl;
    detached = tt;
  }

  -- A compensation that asks for one call.
  abbrev pub Asks : ActivityOptions → Call → (Scope → Flow T (Unit {0})) → Type 0
  Asks options c fn =
      (t : Run T)
      → (r : Result (Unit {0})) × (e : T.State) × (fn disconnected t ≡ (
        r,
        record t { engine = e; steps = t.steps ++ (step_of disconnected options c r ∷ []) },
      ))

  -- With one more compensation, its call comes first.
  pub register-Undoes :
      (saga : Saga T) (name : String) (fn : Scope → Flow T (Unit {0})) (options : ActivityOptions)
      (c : Call) (cs : List Call)
      → Asks options c fn
      → ((t : Run T) → Undoes saga cs t)
      → (s : Run T) → Undoes (register T saga name fn) (c ∷ cs) s
  register-Undoes saga name fn options c cs asks undoes s =
      let (r, e, called) = asks s in
      let t : Run T = record s {
        engine = e;
        steps = s.steps ++ (step_of disconnected options c r ∷ []);
      } in
      let rest : Undoes saga cs t = undoes t in
      record {
        end = rest.end;
        back = step_of disconnected options c r ∷ rest.back;
        returns =
            ap (λ m. m s) (compensate-register T saga name fn)
            ∙ ap (λ out. compensate T saga out.1) called
            ∙ rest.returns;
        same_phases = rest.same_phases;
        adds = rest.adds ∙ append_assoc s.steps (step_of disconnected options c r ∷ []) rest.back;
        asks = ap (◌∷◌ c) rest.asks;
        detached = (refl, rest.detached);
      }
