-- ===== src/Starter/Main/Closing.antt =====
-- What a run of the starter that ends well has done with its client.
use temporalops.Base.{
  String, ◌≡◌, refl, sym, ap, List, [], ◌∷◌, Result, ok, err, Bool-cases, inl, inr, str_eq,
}
use text.Mathlib.TextEquality.{eq_iff}
use temporalops.Starter.Deploys.{run_hello, run_canary, run_approve, run_status}
use temporalops.Starter.Releases.{run_release}
use temporalops.Starter.History.{run_audit}
use temporalops.Audit.{Sqlite}
use temporalops.Starter.Program.{
  Server, Surroundings, Outcome, returned, exited, Shell, Prog, next, need,
}
use temporalops.Starter.Main.{usage, host_port, dispatch, main}

module _ (V : Server) (S : Sqlite) where
  -- What comes after a call runs only if the call comes back.
  next-returned :
      {A B : Type 0} (f : A → Prog V S B) (out : Outcome A × Shell V S) (b : B) (t : Shell V S)
      → next f out ≡ (returned b, t)
      → (a : A) × (u : Shell V S) × (out ≡ (returned a, u)) × (f a u ≡ (returned b, t))
  next-returned f (returned a, u) b t h = (a, u, refl, h)
  next-returned f (exited n, u) b t h = cc

  need-returned :
      {A : Type 0} (what : String) (w u : Shell V S) (a : A) (out : Result A × V.State)
      → need what (λ _. out) w ≡ (returned a, u)
      → (out ≡ (ok a, u.server)) × (u.database ≡ w.database)
  need-returned what w u a (ok x, s) h =
      let back : ◌≡◌ {A = Outcome _} (returned x) (returned a) = ap (λ o. o.0) h in
      let same : x ≡ a = cc back in
      let moved : s ≡ u.server = ap (λ o. o.1.server) h in
      ((λ i. (ok (same i), moved i)), ap (λ o. o.1.database) (sym h))
  need-returned what w u a (err e, s) h = cc

  module _ (H : Surroundings) where
    -- The commands by their names: one of them has been run to its end with these arguments.
    pub data Runs (c : V.Client) (cmd : String) (args : List String) (w v : Shell V S)
        : Type 0 where
      hello : cmd ≡ "hello" → run_hello V S H c args w ≡ (returned tt, v) → Runs c cmd args w v
      canary : cmd ≡ "canary" → run_canary V S H c args w ≡ (returned tt, v) → Runs c cmd args w v
      release :
          cmd ≡ "release" → run_release V S H c args w ≡ (returned tt, v) → Runs c cmd args w v
      approve :
          cmd ≡ "approve" → run_approve V S H c args w ≡ (returned tt, v) → Runs c cmd args w v
      status : cmd ≡ "status" → run_status V S H c args w ≡ (returned tt, v) → Runs c cmd args w v
      audit : cmd ≡ "audit" → run_audit H V S args w ≡ (returned tt, v) → Runs c cmd args w v

    dispatch-Runs :
        (c : V.Client) (cmd : String) (args : List String) (w v : Shell V S)
        → dispatch V S H c cmd args w ≡ (returned tt, v)
        → Runs c cmd args w v
    unfolding dispatch usage
    dispatch-Runs c cmd args w v h = elim (Bool-cases (str_eq cmd "hello")) [
      | inl is ↦ hello ((eq_iff cmd "hello").0 is) (rw (is) at h)
      | inr not_hello ↦ elim (Bool-cases (str_eq cmd "canary")) [
        | inl is ↦ canary ((eq_iff cmd "canary").0 is) (rw (not_hello, is) at h)
        | inr not_canary ↦ elim (Bool-cases (str_eq cmd "release")) [
          | inl is ↦ release ((eq_iff cmd "release").0 is) (rw (not_hello, not_canary, is) at h)
          | inr not_release ↦ elim (Bool-cases (str_eq cmd "approve")) [
            | inl is ↦
                approve ((eq_iff cmd "approve").0 is)
                  (rw (not_hello, not_canary, not_release, is) at h)
            | inr not_approve ↦ elim (Bool-cases (str_eq cmd "status")) [
              | inl is ↦
                  status ((eq_iff cmd "status").0 is)
                    (rw (not_hello, not_canary, not_release, not_approve, is) at h)
              | inr not_status ↦ elim (Bool-cases (str_eq cmd "audit")) [
                | inl is ↦
                    audit ((eq_iff cmd "audit").0 is)
                      (rw (not_hello, not_canary, not_release, not_approve, not_status, is) at h)
                | inr not_audit ↦
                    let bad =
                      rw (not_hello, not_canary, not_release, not_approve, not_status, not_audit) at
                        h in
                    cc bad
              ]
            ]
          ]
        ]
      ]
    ]

    -- A run that ends well has dialled the server, run one of the commands with the client that it
    -- got, and in the end closed this client.
    pub record Closes (cmd : String) (args : List String) (w out : Shell V S) : Type 0 where
      pub client : V.Client
      pub dialled : Shell V S
      pub worked : Shell V S
      pub dials : V.dial (host_port V S H) w.server ≡ (ok client, dialled.server)
      pub works : Runs client cmd args dialled worked
      pub closes : out ≡ record worked { server = V.close client worked.server }

    -- Whatever the arguments, a run of the starter that comes back names one of the six commands, and
    -- has dialled the server, run this very command on the remaining arguments to its end with the
    -- client that it got, and closed that client, with nothing done afterwards.
    pub main-Closes :
        (args : List String) (w out : Shell V S)
        → main V S H args w ≡ (returned tt, out)
        → (cmd : String) × (rest : List String) × (args ≡ cmd ∷ rest) × Closes cmd rest w out
    unfolding main usage
    main-Closes [] w out h = cc
    main-Closes (cmd ∷ rest) w out h =
        let (c, u, reached, h₁) =
          next-returned _ (need "dial temporal" (V.dial (host_port V S H)) w) tt out h in
        let (_, v, done, h₂) = next-returned _ (dispatch V S H c cmd rest u) tt out h₁ in
        (
          cmd,
          rest,
          refl,
          record {
            client = c;
            dialled = u;
            worked = v;
            dials =
                (need-returned "dial temporal" w u c (V.dial (host_port V S H) w.server) reached).0;
            works = dispatch-Runs c cmd rest u v done;
            closes = ap (λ o. o.1) (sym h₂);
          },
        )
