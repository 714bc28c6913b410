-- ===== src/Starter/Layout.antt =====
-- The verbs of `fmt` that the starter prints with: `%-8s` and its like, `%v` of a Boolean and of a
-- slice of texts.
use Prim.Native.String.{count}
use temporalops.Base.{ℕ, zero, suc, ◌-◌, String, ◌<>◌, Bool, true, false, List, [], ◌∷◌, ◌≡◌, refl}

abbrev spaces : ℕ → String
spaces zero = ""
spaces (suc n) = " " <> spaces n

-- The width counts characters.
abbrev pub pad : ℕ → String → String
pad width s = s <> spaces (width - count s)

abbrev pub bool_text : Bool → String
bool_text true = "true"
bool_text false = "false"

abbrev after_space : List String → String
after_space [] = ""
after_space (s ∷ ss) = " " <> s <> after_space ss

abbrev pub list_text : List String → String
list_text [] = "[]"
list_text (s ∷ ss) = "[" <> s <> after_space ss <> "]"

layout_tests :
    (pad 8 "web" ≡ "web     ") × (pad 2 "web" ≡ "web") × (list_text ("a" ∷ "b" ∷ []) ≡ "[a b]")
layout_tests = (refl, refl, refl)
