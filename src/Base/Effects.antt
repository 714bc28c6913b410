-- ===== src/Base/Effects.antt =====
-- Go's `error` values, and calls that change a state and may return an error. The state comes back
-- beside an error too, since what was done before it stays done.
use Prim.Native.String.{String, ◌++◌ as ◌<>◌}
use mathlib.Core.Bool.{Bool, false}

-- An `error` by what the program can observe of it: its text, the answers of the tests of
-- k8s.io/apimachinery/pkg/api/errors, and whether `errors.As` finds an `APIStatus` in its chain.
pub record Error : Type 0 where
  pub text : String
  pub is_server_timeout : Bool
  pub is_service_unavailable : Bool
  pub is_timeout : Bool
  pub is_internal_error : Bool
  pub is_too_many_requests : Bool
  pub is_not_found : Bool
  pub is_api_status : Bool

-- `fmt.Errorf` with no `%w`, and `errors.New`.
abbrev pub new_error : String → Error
new_error text = record {
  text = text;
  is_server_timeout = false;
  is_service_unavailable = false;
  is_timeout = false;
  is_internal_error = false;
  is_too_many_requests = false;
  is_not_found = false;
  is_api_status = false;
}

-- `fmt.Errorf("prefix: %w", e)`: the chain of `e` stays visible to `errors.As`.
abbrev pub wrap : String → Error → Error
wrap prefix e = record e { text = prefix <> ": " <> e.text }

pub data Result {ℓ} (A : Type ℓ) : Type ℓ where
  ok : A → Result A
  err : Error → Result A

abbrev pub Exec : Type 0 → Type 0 → Type 0
Exec S A = S → Result A × S

abbrev pub pure : {S A : Type 0} → A → Exec S A
pure a s = (ok a, s)

abbrev pub raise : {S A : Type 0} → Error → Exec S A
raise e s = (err e, s)

-- What comes after a call: the rest, or nothing after an error.
abbrev pub continue : {S A B : Type 0} → (A → Exec S B) → Result A × S → Result B × S
continue f (ok a, t) = f a t
continue f (err e, t) = (err e, t)

infixl 5 ◌>>=◌ ◌>>◌
abbrev pub ◌>>=◌ : {S A B : Type 0} → Exec S A → (A → Exec S B) → Exec S B
◌>>=◌ m f s = continue f (m s)

abbrev pub ◌>>◌ : {S A B : Type 0} → Exec S A → Exec S B → Exec S B
m >> k = m >>= λ _. k

abbrev pub wrapped : {A : Type 0} → String → Result A → Result A
wrapped prefix (ok a) = ok a
wrapped prefix (err e) = err (wrap prefix e)

-- The call, with its error wrapped.
abbrev pub context : {S A : Type 0} → String → Exec S A → Exec S A
context prefix m s = let (r, t) = m s in (wrapped prefix r, t)

-- The call with its error as a value, for a caller that goes on.
abbrev pub attempt : {S A : Type 0} → Exec S A → Exec S (Result A)
attempt m s = let (r, t) = m s in (ok r, t)

abbrev pub modify : {S : Type 0} → (S → S) → Exec S (Unit {0})
modify f s = (ok tt, f s)
