-- ===== src/Starter/Flags.antt =====
-- Go's `flag` package as cmd/starter uses it: flag sets of texts, numbers, switches and durations,
-- with `flag.ExitOnError`. What stands behind the flags is ignored, as the commands ignore it.
use Prim.Native.Char.{Char, code}
use temporalops.Base.{
  ℤ, String, ◌≡◌, refl, Bool, true, false, ◌==◌, ◌||◌, Option, none, some, List, [], ◌∷◌, str_eq,
  if◌then◌else◌, pos,
}
use temporalops.Workflows.Options.{Duration}

pub data Kind : Type 0 where
  text number switch span : Kind

abbrev pub Value : Kind → Type 0
Value text = String
Value number = ℤ
Value switch = Bool
Value span = Duration

pub record Flag : Type 0 where
  pub kind : Kind
  pub name : String
  pub default : Value kind

abbrev pub Values : List Flag → Type 0
Values [] = Unit {0}
Values (f ∷ fs) = Value f.kind × Values fs

abbrev pub defaults : (fs : List Flag) → Values fs
defaults [] = tt
defaults (f ∷ fs) = (f.default, defaults fs)

-- `strconv.ParseInt(s, 0, 64)` and `time.ParseDuration`; `none` is an error.
pub record Readers : Type 0 where
  pub read_int : String → Option ℤ
  pub read_duration : String → Option Duration

abbrev one_of : String → List String → Bool
one_of s [] = false
one_of s (t ∷ ts) = str_eq s t || one_of s ts

-- `strconv.ParseBool`
abbrev read_bool : String → Option Bool
read_bool s =
    if one_of s ("1" ∷ "t" ∷ "T" ∷ "true" ∷ "TRUE" ∷ "True" ∷ [])
    then some true
    else if one_of s ("0" ∷ "f" ∷ "F" ∷ "false" ∷ "FALSE" ∷ "False" ∷ [])
    then some false
    else none

abbrev is_dash : Char → Bool
is_dash c = code c == b'-'

abbrev is_equals : Char → Bool
is_equals c = code c == b'='

-- One argument: not a flag, the end of the flags, bad syntax, or a flag that may bring its value.
pub data Word : Type 0 where
  plain end_mark malformed : Word
  flag : String → Option String → Word

-- The name, and what stands behind the first `=`.
abbrev pub at_equals : String → String × Option String
at_equals String.[] = (String.[], none)
at_equals (String.◌∷◌ c s) =
    let (name, value) = at_equals s in
    if is_equals c then (String.[], some s) else (String.◌∷◌ c name, value)

named : String → Word
named String.[] = malformed
named (String.◌∷◌ c s) =
    let (name, value) = at_equals (String.◌∷◌ c s) in
    if is_dash c || is_equals c then malformed else flag name value

after_dash : String → Word
unfolding named
after_dash String.[] = plain
after_dash (String.◌∷◌ c String.[]) = if is_dash c then end_mark else named (String.◌∷◌ c String.[])
after_dash (String.◌∷◌ c s) = if is_dash c then named s else named (String.◌∷◌ c s)

unfoldable pub classify : String → Word
unfolding after_dash
classify String.[] = plain
classify (String.◌∷◌ c s) = if is_dash c then after_dash s else plain

pub kind_of : List Flag → String → Option Kind
kind_of [] name = none
kind_of (f ∷ fs) name = if str_eq f.name name then some f.kind else kind_of fs name

-- What `Parse` comes back with; `helped` and `failed` exit with 0 and 2.
pub data Parsed {ℓ} (A : Type ℓ) : Type ℓ where
  parsed : A → Parsed A
  helped failed : Parsed A

infixl 5 ◌>>=◌
abbrev pub ◌>>=◌ {ℓ κ} : {A : Type ℓ} {B : Type κ} → Parsed A → (A → Parsed B) → Parsed B
parsed a >>= f = f a
helped >>= f = helped
failed >>= f = failed

module _ (R : Readers) where
  pub read : (k : Kind) → String → Option (Value k)
  read text s = some s
  read number s = R.read_int s
  read switch s = read_bool s
  read span s = R.read_duration s

  -- `f.Value.Set(raw)` of the flag of this name.
  unfoldable pub assign : (fs : List Flag) → String → String → Values fs → Option (Values fs)
  unfolding read
  assign [] name raw vs = none
  assign (f ∷ fs) name raw (v, vs) =
      if str_eq f.name name
      then (elim (read f.kind raw) [ none ↦ none | some w ↦ some (w, vs) ])
      else (elim (assign fs name raw vs) [ none ↦ none | some ws ↦ some (v, ws) ])

  module _ (fs : List Flag) where
    -- The values so far, and the flag that waits for its value.
    abbrev pub Progress : Type 0
    Progress = Values fs × Option String

    -- `stop` with the values, or go on.
    pub data Next : Type 0 where
      stop : Parsed (Values fs) → Next
      go_on : Progress → Next

    unfoldable pub put : String → String → Values fs → Next
    unfolding assign
    put name raw vs = elim (assign fs name raw vs) [
      | none ↦ stop failed
      | some ws ↦ go_on (ws, none)
    ]

    -- A flag that is not defined: `-h` and `-help` ask for help.
    abbrev unknown : String → Next
    unknown name = if str_eq name "help" || str_eq name "h" then stop helped else stop failed

    -- A flag of this kind, with its value if the argument brings one.
    meet : Option Kind → String → Option String → Values fs → Next
    unfolding put
    meet none name value vs = unknown name
    meet (some switch) name none vs = put name "true" vs
    meet (some switch) name (some raw) vs = put name raw vs
    meet (some k) name none vs = go_on (vs, some name)
    meet (some k) name (some raw) vs = put name raw vs

    take_word : Word → Values fs → Next
    unfolding meet kind_of
    take_word plain vs = stop (parsed vs)
    take_word end_mark vs = stop (parsed vs)
    take_word malformed vs = stop failed
    take_word (flag name value) vs = meet (kind_of fs name) name value vs

    unfoldable pub step : Progress → String → Next
    unfolding take_word classify
    step (vs, some name) arg = put name arg vs
    step (vs, none) arg = take_word (classify arg) vs

    -- At the end of the arguments no flag may wait.
    abbrev at_end : Progress → Parsed (Values fs)
    at_end (vs, none) = parsed vs
    at_end (vs, some name) = failed

    abbrev pub follow : Next → (Progress → Parsed (Values fs)) → Parsed (Values fs)
    follow (stop out) rest = out
    follow (go_on p) rest = rest p

    -- The loop of `Parse`.
    unfoldable pub loop : Progress → List String → Parsed (Values fs)
    unfolding step
    loop p [] = at_end p
    loop p (arg ∷ args) = follow (step p arg) (λ q. loop q args)

  unfoldable pub parse : (fs : List Flag) → List String → Parsed (Values fs)
  unfolding loop
  parse fs args = loop fs (defaults fs, none) args

abbrev tested : Readers
tested = record { read_int = λ _. some (pos 7); read_duration = λ _. none }

abbrev sample : List Flag
sample =
    record { kind = text; name = "id"; default = "" }
    ∷ record { kind = number; name = "bake"; default = pos 15 }
    ∷ record { kind = switch; name = "wait"; default = false }
    ∷ []

parse_tests :
    (parse tested sample ("--id" ∷ "-x" ∷ "-wait" ∷ "--bake=7" ∷ "rest" ∷ "-id" ∷ [])
      ≡ parsed ("-x", (pos 7, (true, tt))))
    × (parse tested sample ("-wait=no" ∷ []) ≡ failed)
    × (parse tested sample ("-bake" ∷ []) ≡ failed)
    × (parse tested sample ("--" ∷ "--nothing" ∷ []) ≡ parsed ("", (pos 15, (false, tt))))
    × (parse tested sample ("---id" ∷ []) ≡ failed)
    × (parse tested sample ("-h" ∷ []) ≡ helped)
unfolding parse
parse_tests = (refl, refl, refl, refl, refl, refl)
