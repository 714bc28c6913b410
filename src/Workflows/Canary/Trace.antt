-- ===== src/Workflows/Canary/Trace.antt =====
-- What a deploy calls of the engine, call after call.
pub mod Stages
use mathlib.Core.List.{append-nil, append_assoc}
use temporalops.Base.{
  String, ◌≡◌, refl, sym, ap, ◌∙◌, subst, Bool, true, false, List, [], ◌∷◌, ◌++◌, Result, ok, err,
  continue, pure, attempt, ◌>>=◌, ◌>>◌, if◌then◌else◌,
}
use temporalops.Workflows.Options.{Duration, ActivityOptions}
use temporalops.Workflows.Engine.{
  Engine, Run, Flow, Scope, disconnected, Call, Step, step_of, execute, set_phase,
}
use temporalops.Workflows.Saga.{Saga, new_saga, register, compensate, compensate_from}
use temporalops.Workflows.Saga.Order.{compensate-register}

module _ (T : Engine) where
  -- The calls that take the engine from one state to another, and the steps among them.
  pub data Trace : T.State → List Step → T.State → Type 0 where
    still : (e : T.State) → Trace e [] e
    queried :
        (name : String) (e e' : T.State) (steps : List Step)
        → Trace (T.set_query_handler name e).1 steps e'
        → Trace e steps e'
    selected :
        (name : String) (d : Duration) (e e' : T.State) (steps : List Step)
        → Trace (T.select name d e).1 steps e'
        → Trace e steps e'
    asked :
        (scope : Scope) (options : ActivityOptions) (c : Call) (e e' : T.State) (steps : List Step)
        → Trace (T.execute scope options c e).1 steps e'
        → Trace e (step_of scope options c (T.execute scope options c e).0 ∷ steps) e'

  Trace-append :
      (e u v : T.State) (xs ys : List Step) → Trace e xs u → Trace u ys v → Trace e (xs ++ ys) v
  Trace-append e u v xs ys (still _) k = k
  Trace-append e u v xs ys (queried name _ _ _ h) k =
      queried name e v _ (Trace-append _ u v xs ys h k)
  Trace-append e u v xs ys (selected name d _ _ _ h) k =
      selected name d e v _ (Trace-append _ u v xs ys h k)
  Trace-append e u v _ ys (asked scope options c _ _ xs h) k =
      asked scope options c e v _ (Trace-append _ u v xs ys h k)

  -- The run has gone on by some steps, with the calls of a trace.
  pub record Follows (s t : Run T) : Type 0 where
    pub more : List Step
    pub adds : t.steps ≡ s.steps ++ more
    pub trace : Trace s.engine more t.engine
    pub same_handlers : t.handlers ≡ s.handlers

  -- Every run of the call goes on in this way.
  pub record Traces {A : Type 0} (m : Flow T A) : Type 0 where
    pub at : (s : Run T) → Follows s (m s).1

  Follows-trans : (s t u : Run T) → Follows s t → Follows t u → Follows s u
  Follows-trans s t u h k = record {
    more = h.more ++ k.more;
    adds = k.adds ∙ ap (λ xs. xs ++ k.more) h.adds ∙ append_assoc s.steps h.more k.more;
    trace = Trace-append _ _ _ h.more k.more h.trace k.trace;
    same_handlers = k.same_handlers ∙ h.same_handlers;
  }

  -- No step, but perhaps another call of the engine.
  pub Follows-same :
      (s t : Run T)
      → t.steps ≡ s.steps
      → t.handlers ≡ s.handlers
      → Trace s.engine [] t.engine
      → Follows s t
  Follows-same s t h l k = record {
    more = [];
    adds = h ∙ sym (append-nil s.steps);
    trace = k;
    same_handlers = l;
  }

  -- The same for a run in which a query handler may have been set.
  pub record Goes (s t : Run T) : Type 0 where
    pub more : List Step
    pub adds : t.steps ≡ s.steps ++ more
    pub trace : Trace s.engine more t.engine

  pub Goes-Follows : (s t u : Run T) → Goes s t → Follows t u → Goes s u
  Goes-Follows s t u h k = record {
    more = h.more ++ k.more;
    adds = k.adds ∙ ap (λ xs. xs ++ k.more) h.adds ∙ append_assoc s.steps h.more k.more;
    trace = Trace-append _ _ _ h.more k.more h.trace k.trace;
  }

  pub Goes-queried : (s t : Run T) → t.steps ≡ s.steps → Trace s.engine [] t.engine → Goes s t
  Goes-queried s t h k = record { more = []; adds = h ∙ sym (append-nil s.steps); trace = k }

  pub Traces-pure : {A : Type 0} (a : A) → Traces (pure a)
  Traces-pure a = record { at = λ s. Follows-same s s refl refl (still s.engine) }

  Follows-continue :
      {A B : Type 0} (f : A → Flow T B) (s : Run T) (out : Result A × Run T)
      → Follows s out.1
      → ((a : A) → Traces (f a))
      → Follows s (continue f out).1
  Follows-continue f s (ok a, t) h k = Follows-trans s t (f a t).1 h ((k a).at t)
  Follows-continue f s (err e, t) h k = h

  pub Traces-bind :
      {A B : Type 0} (m : Flow T A) (f : A → Flow T B)
      → Traces m
      → ((a : A) → Traces (f a))
      → Traces (m >>= f)
  Traces-bind m f h k = record { at = λ s. Follows-continue f s (m s) (h.at s) k }

  pub Traces-attempt : {A : Type 0} (m : Flow T A) → Traces m → Traces (attempt m)
  Traces-attempt m h = record { at = λ s. h.at s }

  pub Traces-phase : (phase : String) → Traces (set_phase T phase)
  Traces-phase phase = record { at = λ s. Follows-same s _ refl refl (still s.engine) }

  pub Traces-if :
      {A : Type 0} (b : Bool) (m n : Flow T A) → Traces m → Traces n → Traces (if b then m else n)
  Traces-if true m n h k = h
  Traces-if false m n h k = k

  pub Traces-execute :
      (scope : Scope) (options : ActivityOptions) (c : Call) → Traces (execute T scope options c)
  unfolding execute
  Traces-execute scope options c = record {
    at = λ s. record {
      more = step_of scope options c (T.execute scope options c s.engine).0 ∷ [];
      adds = refl;
      trace = asked scope options c s.engine _ [] (still _);
      same_handlers = refl;
    };
  }

  pub Traces-new_saga : Traces (compensate T (new_saga T))
  unfolding new_saga compensate compensate_from
  Traces-new_saga = record { at = λ s. Follows-same s s refl refl (still s.engine) }

  pub Traces-register :
      (saga : Saga T) (name : String) (fn : Scope → Flow T (Unit {0}))
      → ((scope : Scope) → Traces (fn scope))
      → Traces (compensate T saga)
      → Traces (compensate T (register T saga name fn))
  Traces-register saga name fn h k =
      subst (λ (m : Flow T (Unit {0})). Traces m) (sym (compensate-register T saga name fn))
        (Traces-bind (attempt (fn disconnected) >> pure tt) (λ _. compensate T saga)
          (Traces-bind (attempt (fn disconnected)) (λ _. pure tt)
            (Traces-attempt (fn disconnected) (h disconnected)) λ _. Traces-pure tt)
          λ _. k)
