-- ===== src/Tests/Busy.antt =====
-- A cluster in which another deployment is written to all the time: it keeps the laws of the API
-- server for the deployments of one service, though not for all.
use text.Mathlib.TextEquality.{eq_iff}
use temporalops.Base.{
  ℤ, pos, String, ◌≡◌, refl, sym, ap, ◌∙◌, subst, inl, inr, Bool, true, ◌||◌, Option, none, some,
  ok, pure, Bool-cases, str_eq, if◌then◌else◌,
}
use temporalops.Kube.{Kube}
use temporalops.Kube.View.{View, Write, scale_to, image_to, write, target}
use temporalops.Kube.View.Converge.{View-eq}
use temporalops.Kube.Laws.{IsLawful}
use temporalops.Client.{namespace, canary_name, stable_name}
use temporalops.Client.Names.{Named}
use temporalops.Tests.Cluster.{
  patched, patched-app, shown, deployed, shown_shows, shown-Reads, deployed-Reads,
}

abbrev is_shop : String → Bool
is_shop name = str_eq "shop-canary" name || str_eq "shop-stable" name

-- What is shown: the deployments of the shop.
abbrev pub of_shop : View → View
of_shop v = record {
  replicas = λ name. if is_shop name then v.replicas name else none;
  image = λ name. if is_shop name then v.image name else none;
}

-- Somebody else scales the web.
abbrev pub meanwhile : View → View
meanwhile v = write (scale_to "web-stable" (pos 7)) v

web_hidden :
    (n : String) (o : Option ℤ)
    → (if is_shop n then (if str_eq "web-stable" n then some (pos 7) else o) else none)
      ≡ (if is_shop n then o else none)
web_hidden n o = elim (Bool-cases (str_eq "web-stable" n)) [
  | inl hit ↦
      subst
        (λ (m : String).
          (if is_shop m then (if str_eq "web-stable" m then some (pos 7) else o) else none)
          ≡ (if is_shop m then o else none))
        ((eq_iff "web-stable" n).0 hit) refl
  | inr miss ↦ rw miss
]

pub meanwhile-hidden : (v : View) → of_shop (meanwhile v) ≡ of_shop v
meanwhile-hidden v = View-eq _ _ (λ n. web_hidden n (v.replicas n)) (λ n. refl)

Named-is_shop : (name : String) → Named "shop" name → is_shop name ≡ true
unfolding canary_name stable_name
Named-is_shop name (inl e) = ap is_shop e
Named-is_shop name (inr e) = ap is_shop e

update_shown :
    {A : Type 0} (name n : String) (a : A) (o : Option A)
    → is_shop name ≡ true
    → (if is_shop n then (if str_eq name n then some a else o) else none)
      ≡ (if str_eq name n then some a else (if is_shop n then o else none))
update_shown name n a o mine = elim (Bool-cases (str_eq name n)) [
  | inl hit ↦
      let here : is_shop n ≡ true = sym (ap is_shop ((eq_iff name n).0 hit)) ∙ mine in
      rw (hit, here)
  | inr miss ↦ rw miss
]

write-of_shop :
    (w : Write) (v : View) → Named "shop" (target w) → of_shop (write w v) ≡ write w (of_shop v)
write-of_shop (scale_to name k) v mine =
    View-eq _ _ (λ n. update_shown name n k (v.replicas n) (Named-is_shop name mine)) (λ n. refl)
write-of_shop (image_to name i) v mine =
    View-eq _ _ (λ n. refl) (λ n. update_shown name n i (v.image n) (Named-is_shop name mine))

-- Each call of the API server finds that the web has been scaled.
abbrev pub busy : Kube
busy = record {
  Cluster = View;
  Config = Unit;
  Clientset = Unit;
  Meta = Unit;
  in_cluster_config = pure tt;
  local_config = pure tt;
  new_for_config = λ _. pure tt;
  get_scale = λ _ _ name v. shown (v.replicas name) (meanwhile v);
  update_scale = λ _ _ name x v. (ok tt, meanwhile (write (scale_to name x.replicas) v));
  patch_image = λ _ _ name p v. (ok tt, meanwhile (patched name p v));
  dry_run_patch = λ _ _ _ _ v. (ok tt, meanwhile v);
  get_deployment = λ _ _ name v. deployed (v.replicas name) (meanwhile v);
  wait_second = λ v. (ok tt, meanwhile v);
}

shop_shown :
    (name : String) (o p : Option ℤ)
    → Named "shop" name
    → o ≡ p
    → (if is_shop name then o else none) ≡ p
shop_shown name o p mine e = rw (Named-is_shop name mine, e)

pub busy-IsLawful : IsLawful busy namespace of_shop (Named "shop")
busy-IsLawful = record {
  in_cluster_config-Reads = λ c. refl;
  local_config-Reads = λ c. refl;
  new_for_config-Reads = λ f c. refl;
  get_scale-Reads =
      λ s name c. ap of_shop (shown-Reads (c.replicas name) (meanwhile c)) ∙ meanwhile-hidden c;
  get_deployment-Reads =
      λ s name c. ap of_shop (deployed-Reads (c.replicas name) (meanwhile c)) ∙ meanwhile-hidden c;
  dry_run-Reads = λ s name p c. meanwhile-hidden c;
  wait-Reads = λ c. meanwhile-hidden c;
  get_scale_shows = λ s name c c' x mine e.
      shop_shown name (c.replicas name) (some x.replicas) mine
        (shown_shows (c.replicas name) (meanwhile c) c' x e);
  update_scale-Wrote = λ s name x c mine.
      meanwhile-hidden (write (scale_to name x.replicas) c)
      ∙ write-of_shop (scale_to name x.replicas) c mine;
  patch_image-Wrote = λ s name p c mine e.
      ap (λ v. of_shop (meanwhile v)) (patched-app name p c e)
      ∙ meanwhile-hidden (write (image_to name p.image) c)
      ∙ write-of_shop (image_to name p.image) c mine;
}
