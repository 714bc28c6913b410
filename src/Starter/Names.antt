-- ===== src/Starter/Names.antt =====
-- The service names of `starter release`: `strings.Split` at commas, `strings.TrimSpace`, and the
-- empty ones left out.
pub mod Proper
use Prim.Native.Char.{Char, code}
use Prim.Native.String
use temporalops.Base.{
  ℕ, String, ◌≡◌, refl, Bool, true, false, ◌==◌, leb, ◌&&◌, ◌||◌, List, [], ◌∷◌, str_eq,
  if◌then◌else◌,
}

-- `unicode.IsSpace`
abbrev pub is_space : Char → Bool
is_space c =
    leb 9 (code c) && leb (code c) 13
    || code c == 0x20
    || code c == 0x85
    || code c == 0xA0
    || code c == 0x1680
    || leb 0x2000 (code c) && leb (code c) 0x200a
    || code c == 0x2028
    || code c == 0x2029
    || code c == 0x202f
    || code c == 0x205f
    || code c == 0x3000

abbrev pub is_comma : Char → Bool
is_comma c = code c == b','

-- A character more in the first part. There is always one.
abbrev pub grow : Char → List String → List String
grow c [] = String.◌∷◌ c String.[] ∷ []
grow c (p ∷ ps) = String.◌∷◌ c p ∷ ps

unfoldable pub split : String → List String
split String.[] = String.[] ∷ []
split (String.◌∷◌ c s) =
    let parts = split s in if is_comma c then String.[] ∷ parts else grow c parts

pub trim_left : String → String
trim_left String.[] = String.[]
trim_left (String.◌∷◌ c s) = let rest = trim_left s in if is_space c then rest else String.◌∷◌ c s

pub trim_right : String → String
trim_right String.[] = String.[]
trim_right (String.◌∷◌ c s) =
    let rest = trim_right s in if is_space c && str_eq rest "" then String.[] else String.◌∷◌ c rest

unfoldable pub trim_space : String → String
unfolding trim_left trim_right
trim_space s = trim_right (trim_left s)

-- The loop over the names.
unfoldable pub service_names : List String → List String
unfolding trim_space
service_names [] = []
service_names (n ∷ ns) =
    let rest = service_names ns in if str_eq (trim_space n) "" then rest else trim_space n ∷ rest

names_test : service_names (split " web ,,\tapi, ") ≡ "web" ∷ "api" ∷ []
unfolding service_names split
names_test = refl
