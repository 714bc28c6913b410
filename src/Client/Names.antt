-- ===== src/Client/Names.antt =====
-- The names of deployments: no two services share one, and a service's two differ.
use text.Mathlib.TextEquality.{eq_iff}
use text.Mathlib.TextLemmas.{append_cancel_right, append_inj, length-append}
use Prim.Native.String.{count}
use temporalops.Base.{◌⊎◌, String, ◌≡◌, ◌≢◌, ap, true, arith, str_eq}
use temporalops.Client.{stable_name, canary_name}

suffixes_differ : ◌≢◌ {A = String} "-canary" "-stable"
suffixes_differ e =
    let same : str_eq "-canary" "-stable" ≡ true = (eq_iff "-canary" "-stable").1 e in cc same

-- The suffixes are equally long.
pub names_differ : (a b : String) → canary_name a ≢ stable_name b
unfolding canary_name stable_name
names_differ a b e = suffixes_differ (append_inj e same_count).1
  where
    same_count : count a ≡ count b
    same_count = omega (arith, ap count e, length-append a "-canary", length-append b "-stable")

pub canary_name_injective : (a b : String) → canary_name a ≡ canary_name b → a ≡ b
unfolding canary_name
canary_name_injective a b e = append_cancel_right a b "-canary" e

pub stable_name_injective : (a b : String) → stable_name a ≡ stable_name b → a ≡ b
unfolding stable_name
stable_name_injective a b e = append_cancel_right a b "-stable" e

-- The two deployments of a service.
abbrev pub Named : String → String → Type 0
Named service name = (name ≡ canary_name service) ⊎ (name ≡ stable_name service)
