-- ===== src/Client/Plans.antt =====
-- A call of the API against the list of writes that it promises: all of them where it succeeds, a
-- first part of them where it fails. Rules for the ways in which the activities combine calls.
use mathlib.Core.List.{append_assoc}
use temporalops.Base.{
  ℤ, ◌==ℤ◌, ==ℤ_eq, Bool-cases, String, ◌≡◌, refl, sym, ap, ◌∙◌, inl, inr, List, [], ◌∷◌, ◌++◌,
  Result, ok, err, Exec, continue, pure, raise, context, attempt, ◌>>=◌, Error, Option, none, some,
}
use temporalops.Kube.{Kube, Scale}
use temporalops.Kube.View.{View, Write, scale_to, image_to, apply, apply-append, write_same_scale}
use temporalops.Kube.Laws.{Reads, Wrote, IsLawful}
use temporalops.Client.{
  World, namespace, api, or_local, load_client, first_load, k8s_client, write_scale,
  scale_deployment, set_image, dry_run_set_image, deployment_status,
}

-- A first part of the writes has been made.
abbrev pub Partly : List Write → View → View → Type 0
Partly ws v v' = (ps : List Write) × (qs : List Write) × (ws ≡ ps ++ qs) × (v' ≡ apply ps v)

pub Partly-append_left :
    (us ws : List Write) (v v' : View) → Partly us v v' → Partly (us ++ ws) v v'
Partly-append_left us ws v v' (ps, qs, e, h) =
    (ps, qs ++ ws, ap (λ xs. xs ++ ws) e ∙ append_assoc ps qs ws, h)

pub Partly-append_right :
    (us ws : List Write) (v v' : View) → Partly ws (apply us v) v' → Partly (us ++ ws) v v'
Partly-append_right us ws v v' (ps, qs, e, h) =
    (us ++ ps, qs, ap (◌++◌ us) e ∙ sym (append_assoc us ps qs), h ∙ sym (apply-append us ps v))

module _ (K : Kube) (view : K.Cluster → View) where
  abbrev pub Does : {A : Type 0} → List Write → World K → Result A × World K → Type 0
  Does ws w (ok _, w') = view w'.cluster ≡ apply ws (view w.cluster)
  Does ws w (err _, w') = Partly ws (view w.cluster) (view w'.cluster)

  -- The call does these writes from every state.
  pub record Makes {A : Type 0} (ws : List Write) (m : Exec (World K) A) : Type 0 where
    pub at : (w : World K) → Does ws w (m w)

  pub Makes-pure : {A : Type 0} (a : A) → Makes [] (pure a)
  unfolding apply
  Makes-pure a = record { at = λ w. refl }

  pub Makes-raise : (A : Type 0) (ws : List Write) (e : Error) → Makes {A = A} ws (raise e)
  unfolding apply
  Makes-raise A ws e = record { at = λ w. ([], ws, refl, refl) }

  Partly-after :
      (us ws : List Write) (v v' v'' : View)
      → v' ≡ apply us v
      → Partly ws v' v''
      → Partly (us ++ ws) v v''
  Partly-after us ws v v' v'' e p = Partly-append_right us ws v v'' (rw e at p)

  Does-after :
      {B : Type 0} (us ws : List Write) (w t : World K) (out : Result B × World K)
      → view t.cluster ≡ apply us (view w.cluster)
      → Does ws t out
      → Does (us ++ ws) w out
  Does-after us ws w t (ok b, t') e d =
      d ∙ ap (apply ws) e ∙ sym (apply-append us ws (view w.cluster))
  Does-after us ws w t (err x, t') e p = Partly-after us ws _ _ _ e p

  Does-continue :
      {A B : Type 0} (us ws : List Write) (f : A → Exec (World K) B) (w : World K)
      (out : Result A × World K)
      → Does us w out
      → ((a : A) → Makes ws (f a))
      → Does (us ++ ws) w (continue f out)
  Does-continue us ws f w (ok a, t) d k = Does-after us ws w t (f a t) d ((k a).at t)
  Does-continue us ws f w (err e, t) d k = Partly-append_left us ws _ _ d

  pub Makes-bind :
      {A B : Type 0} (us ws : List Write) (m : Exec (World K) A) (f : A → Exec (World K) B)
      → Makes us m
      → ((a : A) → Makes ws (f a))
      → Makes (us ++ ws) (m >>= f)
  Makes-bind us ws m f hm hf = record { at = λ w. Does-continue us ws f w (m w) (hm.at w) hf }

  Does-context :
      {A : Type 0} (ws : List Write) (p : String) (w : World K) (out : Result A × World K)
      → Does ws w out
      → Does ws w (context p (λ (_ : World K). out) w)
  Does-context ws p w (ok a, t) d = d
  Does-context ws p w (err e, t) d = d

  pub Makes-context :
      {A : Type 0} (ws : List Write) (p : String) (m : Exec (World K) A)
      → Makes ws m
      → Makes ws (context p m)
  Makes-context ws p m h = record { at = λ w. Does-context ws p w (m w) (h.at w) }

  Partly-nil : (v v' : View) → Partly [] v v' → v' ≡ v
  unfolding apply
  Partly-nil v v' ([], qs, e, h) = h
  Partly-nil v v' (p ∷ ps, qs, e, h) = cc

  pub Does-attempt :
      {A : Type 0} (w : World K) (out : Result A × World K)
      → Does [] w out
      → Does [] w (attempt (λ (_ : World K). out) w)
  unfolding apply
  Does-attempt w (ok a, t) d = d
  Does-attempt w (err e, t) d = Partly-nil _ _ d

  -- A call of the API server that reads, and one that makes a write.
  Does-read :
      {A : Type 0} (w : World K) (out : Result A × K.Cluster)
      → view out.1 ≡ view w.cluster
      → Does [] w (api K (λ _. out) w)
  unfolding apply
  Does-read w (ok a, c) h = h
  Does-read w (err e, c) h = ([], [], refl, h)

  pub Makes-read :
      {A : Type 0} (m : Exec K.Cluster A) → Reads K namespace view m → Makes [] (api K m)
  Makes-read m h = record { at = λ w. Does-read w (m w.cluster) (h w.cluster) }

  Does-write :
      {A : Type 0} (x : Write) (w : World K) (out : Result A × K.Cluster)
      → Wrote K namespace view x w.cluster out
      → Does (x ∷ []) w (api K (λ _. out) w)
  unfolding apply
  Does-write x w (ok a, c) h = h
  Does-write x w (err e, c) (inl same) = ([], x ∷ [], refl, same)
  Does-write x w (err e, c) (inr made) = (x ∷ [], [], refl, made)

  pub Makes-write :
      {A : Type 0} (x : Write) (m : Exec K.Cluster A)
      → ((c : K.Cluster) → Wrote K namespace view x c (m c))
      → Makes (x ∷ []) (api K m)
  Makes-write x m h = record { at = λ w. Does-write x w (m w.cluster) (h w.cluster) }

  -- The lawful API server: what each shared call promises.
  module _ {Mine : String → Type 0} (L : IsLawful K namespace view Mine) where
    or_local-Reads : (r : Result K.Config) → Reads K namespace view (or_local K r)
    or_local-Reads (ok config) c = refl
    or_local-Reads (err e) c = L.local_config-Reads c

    Reads-continue :
        {A B : Type 0} (f : A → Exec K.Cluster B) (c : K.Cluster) (out : Result A × K.Cluster)
        → view out.1 ≡ view c
        → ((a : A) → Reads K namespace view (f a))
        → view (continue f out).1 ≡ view c
    Reads-continue f c (ok a, t) h k = k a t ∙ h
    Reads-continue f c (err e, t) h k = h

    load_client-Reads : Reads K namespace view (load_client K)
    unfolding load_client
    load_client-Reads c =
        let (found, c₁) = K.in_cluster_config c in
        Reads-continue K.new_for_config c (context "load kube config" (or_local K found) c₁)
          (or_local-Reads found c₁ ∙ L.in_cluster_config-Reads c) L.new_for_config-Reads

    first_load-Does :
        (w : World K) (out : Result K.Clientset × K.Cluster)
        → view out.1 ≡ view w.cluster
        → Does {A = K.Clientset} [] w (out.0, record w { cached = some out.0; cluster = out.1 })
    unfolding apply
    first_load-Does w (ok s, c) h = h
    first_load-Does w (err e, c) h = ([], [], refl, h)

    cached-Does :
        (w : World K) (known : Option (Result K.Clientset))
        → Does {A = K.Clientset} [] w (elim known [ none ↦ first_load K w | some r ↦ (r, w) ])
    unfolding apply
    cached-Does w none = first_load-Does w (load_client K w.cluster) (load_client-Reads w.cluster)
    cached-Does w (some (ok c)) = refl
    cached-Does w (some (err e)) = ([], [], refl, refl)

    pub k8s_client-Makes : Makes [] (k8s_client K)
    unfolding k8s_client
    k8s_client-Makes = record { at = λ w. cached-Does w w.cached }

    write_scale-Does :
        (s : K.Clientset) (name : String) (n : ℤ) (x : Scale K.Meta) (w : World K)
        → Mine name
        → (view w.cluster).replicas name ≡ some x.replicas
        → Does (scale_to name n ∷ []) w (write_scale K s name n x w)
    unfolding apply
    write_scale-Does s name n x w mine shown = elim (Bool-cases (x.replicas ==ℤ n)) [
      | inl same ↦ rw same (
          sym
            (write_same_scale name n (view w.cluster) (shown ∙ ap some (==ℤ_eq x.replicas n same))))
      | inr differ ↦ rw differ (
          (Makes-context (scale_to name n ∷ []) _ _ (
              Makes-write (scale_to name n) _
                (λ c. L.update_scale-Wrote s name (record x { replicas = n }) c mine))).at
            w)
    ]

    read_scale-Does :
        (s : K.Clientset) (name prefix : String) (n : ℤ) (w : World K)
        (out : Result (Scale K.Meta) × K.Cluster)
        → Mine name
        → K.get_scale s namespace name w.cluster ≡ out
        → view out.1 ≡ view w.cluster
        → Does
            (scale_to name n ∷ [])
            w
            (continue (write_scale K s name n) (context prefix (api K (λ _. out)) w))
    unfolding apply
    read_scale-Does s name prefix n w (ok x, c) mine e h =
        Does-after [] (scale_to name n ∷ []) w (record w { cluster = c }) _ h
          (write_scale-Does s name n x (record w { cluster = c }) mine
            (ap (λ v. v.replicas name) h ∙ L.get_scale_shows s name w.cluster c x mine e))
    read_scale-Does s name prefix n w (err x, c) mine e h = ([], scale_to name n ∷ [], refl, h)

    -- `scaleDeployment` sets the replica count, whether or not it has to write.
    pub scale_deployment-Makes :
        (name : String) (n : ℤ)
        → Mine name
        → Makes (scale_to name n ∷ []) (scale_deployment K name n)
    unfolding scale_deployment
    scale_deployment-Makes name n mine = Makes-bind [] _ _ _ k8s_client-Makes λ s. record {
      at = λ w. read_scale-Does s name _ n w _ mine refl (L.get_scale-Reads s name w.cluster);
    }

    pub set_image-Makes :
        (name image : String)
        → Mine name
        → Makes (image_to name image ∷ []) (set_image K name image)
    unfolding set_image
    set_image-Makes name image mine = Makes-bind [] _ _ _ k8s_client-Makes λ s.
        Makes-context _ _ _
          (Makes-write (image_to name image) _ (λ c. L.patch_image-Wrote s name _ c mine refl))

    pub dry_run_set_image-Makes : (name image : String) → Makes [] (dry_run_set_image K name image)
    unfolding dry_run_set_image
    dry_run_set_image-Makes name image =
        Makes-bind [] [] _ _ k8s_client-Makes λ s. Makes-read _ (L.dry_run-Reads s name _)

    pub deployment_status-Makes : (name : String) → Makes [] (deployment_status K name)
    unfolding deployment_status
    deployment_status-Makes name = Makes-bind [] [] _ _ k8s_client-Makes λ s.
        Makes-bind [] [] _ _ (Makes-context [] _ _ (Makes-read _ (L.get_deployment-Reads s name)))
          λ d. Makes-pure _
