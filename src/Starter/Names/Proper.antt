-- ===== src/Starter/Names/Proper.antt =====
-- Which names `starter release` deploys.
use Prim.Native.Char.{Char}
use Prim.Native.String.{char_at}
use text.Mathlib.TextEquality.{eq_iff}
use text.Mathlib.TextLemmas.{nil-append, cons-append}
use temporalops.Base.{
  String, ◌<>◌, ◌≡◌, ◌≢◌, refl, sym, ap, ◌∙◌, false, ◌&&◌, List, [], ◌∷◌, All, inl, inr, Bool-cases,
  str_eq,
}
use temporalops.Starter.Names.{
  is_space, is_comma, grow, split, trim_left, trim_right, trim_space, service_names,
}

abbrev pub LacksComma : String → Type 0
LacksComma String.[] = Unit {0}
LacksComma (String.◌∷◌ c s) = (is_comma c ≡ false) × LacksComma s

-- A name with text in it, with no comma, and with no space at its ends.
pub record IsProper (name : String) : Type 0 where
  pub not_blank : name ≢ ""
  pub lacks_comma : LacksComma name
  pub trimmed : trim_space name ≡ name

trim_right_idem : (s : String) → trim_right (trim_right s) ≡ trim_right s
unfolding trim_right
trim_right_idem String.[] = refl
trim_right_idem (String.◌∷◌ c s) = elim (Bool-cases (is_space c && str_eq (trim_right s) "")) [
  | inl gone ↦ rw gone
  | inr kept ↦ rw kept (rw (trim_right_idem s, kept))
]

-- A text that starts with no space.
abbrev IsSolid : String → Type 0
IsSolid String.[] = Unit {0}
IsSolid (String.◌∷◌ c s) = is_space c ≡ false

trim_left-IsSolid : (s : String) → IsSolid (trim_left s)
unfolding trim_left
trim_left-IsSolid String.[] = tt
trim_left-IsSolid (String.◌∷◌ c s) = elim (Bool-cases (is_space c)) [
  | inl space ↦ rw space (trim_left-IsSolid s)
  | inr solid ↦ rw solid solid
]

trim_left-trim_right : (s : String) → IsSolid s → trim_left (trim_right s) ≡ trim_right s
unfolding trim_left trim_right
trim_left-trim_right String.[] h = refl
trim_left-trim_right (String.◌∷◌ c s) h = rw h (rw h)

trim_space_idem : (s : String) → trim_space (trim_space s) ≡ trim_space s
unfolding trim_space
trim_space_idem s =
    rw (trim_left-trim_right (trim_left s) (trim_left-IsSolid s)) (trim_right_idem (trim_left s))

trim_left-LacksComma : (s : String) → LacksComma s → LacksComma (trim_left s)
unfolding trim_left
trim_left-LacksComma String.[] h = tt
trim_left-LacksComma (String.◌∷◌ c s) h = elim (Bool-cases (is_space c)) [
  | inl space ↦ rw space (trim_left-LacksComma s h.1)
  | inr solid ↦ rw solid h
]

trim_right-LacksComma : (s : String) → LacksComma s → LacksComma (trim_right s)
unfolding trim_right
trim_right-LacksComma String.[] h = tt
trim_right-LacksComma (String.◌∷◌ c s) h =
    elim (Bool-cases (is_space c && str_eq (trim_right s) "")) [
      | inl gone ↦ rw gone tt
      | inr kept ↦ rw kept (h.0, trim_right-LacksComma s h.1)
    ]

grow-LacksComma :
    (c : Char) (ps : List String)
    → is_comma c ≡ false
    → All LacksComma ps
    → All LacksComma (grow c ps)
grow-LacksComma c [] h k = ((h, tt), tt)
grow-LacksComma c (p ∷ ps) h k = ((h, k.0), k.1)

split-LacksComma : (s : String) → All LacksComma (split s)
unfolding split
split-LacksComma String.[] = (tt, tt)
split-LacksComma (String.◌∷◌ c s) = elim (Bool-cases (is_comma c)) [
  | inl comma ↦ rw comma (tt, split-LacksComma s)
  | inr other ↦ rw other (grow-LacksComma c (split s) other (split-LacksComma s))
]

trim_space-LacksComma : (s : String) → LacksComma s → LacksComma (trim_space s)
unfolding trim_space
trim_space-LacksComma s h = trim_right-LacksComma (trim_left s) (trim_left-LacksComma s h)

service_names-IsProper : (ns : List String) → All LacksComma ns → All IsProper (service_names ns)
unfolding service_names
service_names-IsProper [] h = tt
service_names-IsProper (n ∷ ns) h = elim (Bool-cases (str_eq (trim_space n) "")) [
  | inl blank ↦ rw blank (service_names-IsProper ns h.1)
  | inr full ↦ rw full (
    record {
      not_blank = λ e. cc (full, (eq_iff (trim_space n) "").1 e);
      lacks_comma = trim_space-LacksComma n h.0;
      trimmed = trim_space_idem n;
    },
    service_names-IsProper ns h.1,
  )
]

-- Whatever text is given, each name that a release deploys is proper: it is not blank, holds no
-- comma and has no space at its ends.
pub service_names-split-IsProper : (s : String) → All IsProper (service_names (split s))
service_names-split-IsProper s = service_names-IsProper (split s) (split-LacksComma s)

-- The text of a list of names.
abbrev pub comma_list : List String → String
comma_list [] = ""
comma_list (n ∷ []) = n
comma_list (n ∷ ns) = n <> ("," <> comma_list ns)

split-LacksComma_self : (s : String) → LacksComma s → split s ≡ s ∷ []
unfolding split
split-LacksComma_self String.[] h = refl
split-LacksComma_self (String.◌∷◌ c s) h = rw h.0 (ap (grow c) (split-LacksComma_self s h.1))

abbrev comma : Char
comma = char_at "," 0

split_at_comma : (n s : String) → LacksComma n → split (n <> ("," <> s)) ≡ n ∷ split s
unfolding split
split_at_comma String.[] s h =
    ap split
      (nil-append ("," <> s) ∙ cons-append comma String.[] s ∙ ap (String.◌∷◌ comma) (nil-append s))
split_at_comma (String.◌∷◌ c n) s h =
    ap split (cons-append c n ("," <> s)) ∙ rw h.0 (ap (grow c) (split_at_comma n s h.1))

service_names-cons :
    (n : String) (ns : List String) → IsProper n → service_names (n ∷ ns) ≡ n ∷ service_names ns
unfolding service_names
service_names-cons n ns h = elim (Bool-cases (str_eq (trim_space n) "")) [
  | inl blank ↦ absurd (h.not_blank (sym h.trimmed ∙ (eq_iff (trim_space n) "").0 blank))
  | inr full ↦ rw full (ap (λ m. m ∷ service_names ns) h.trimmed)
]

none_named : (service_names ("" ∷ []) ≡ []) × (service_names [] ≡ [])
unfolding service_names
none_named = (refl, refl)

-- Every list of proper names can be asked for: the text that lists them, with commas between, is
-- read as exactly these names, in this order.
pub service_names-comma_list :
    (ns : List String) → All IsProper ns → service_names (split (comma_list ns)) ≡ ns
unfolding split
service_names-comma_list [] h = none_named.0
service_names-comma_list (n ∷ []) h =
    ap service_names (split-LacksComma_self n h.0.lacks_comma)
    ∙ service_names-cons n [] h.0
    ∙ ap (◌∷◌ n) none_named.1
service_names-comma_list (n ∷ m ∷ ns) h =
    ap service_names (split_at_comma n (comma_list (m ∷ ns)) h.0.lacks_comma)
    ∙ service_names-cons n _ h.0
    ∙ ap (◌∷◌ n) (service_names-comma_list (m ∷ ns) h.1)
