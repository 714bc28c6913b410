-- ===== src/Base/Text.antt =====
-- Text as Go's `fmt` prints it: `%d` of an integer, and `String` of a `time.Duration`.
use Prim.Native.Nat.{ℕ, zero, suc, ◌*◌, ◌/◌, ◌%◌, ◌^◌}
use Prim.Native.String.{String, ◌++◌ as ◌<>◌}
use mathlib.Core.Path.{◌≡◌, refl}
use mathlib.Core.Bool.{Bool, false, ◌||◌, not}
use temporalops.Base.Tests.{ltb, ◌==◌, if◌then◌else◌}
use temporalops.Base.Numbers.{ℤ, pos, negsuc}
pub use text.Mathlib.Text.{◌==◌ as str_eq}

digit : ℕ → String
digit n =
    if n == 0
    then "0"
    else if n == 1
    then "1"
    else if n == 2
    then "2"
    else if n == 3
    then "3"
    else if n == 4
    then "4"
    else if n == 5
    then "5"
    else if n == 6
    then "6"
    else if n == 7
    then "7"
    else if n == 8
    then "8"
    else "9"

-- The fuel is more than the number, so it is more than its count of digits.
digits : ℕ → ℕ → String
digits zero n = ""
digits (suc f) n =
    let more = digits f (n / 10) <> digit (n % 10) in if ltb n 10 then digit n else more

unfoldable pub decimal : ℕ → String
unfolding digits digit
decimal n = digits (suc n) n

-- `%d`.
unfoldable pub show : ℤ → String
unfolding decimal
show (pos n) = decimal n
show (negsuc n) = "-" <> decimal (suc n)

-- `fmtFrac`: the last `prec` digits of `v` behind a point, without trailing zeros. `shown` says
-- that a digit other than 0 stands further right.
fraction : ℕ → ℕ → Bool → String
unfolding digit
fraction zero v shown = if shown then "." else ""
fraction (suc p) v shown =
    let next = shown || not (v % 10 == 0) in
    fraction p (v / 10) next <> (if next then digit (v % 10) else "")

point : ℕ → ℕ → String
unfolding decimal fraction
point v prec = decimal (v / 10 ^ prec) <> fraction prec v false

abbrev ns_per_minute : ℕ
ns_per_minute = 60 * 10 ^ 9

long : ℕ → String
unfolding point
long n =
    let minutes = n / ns_per_minute in
    let seconds = point (n % ns_per_minute) 9 <> "s" in
    if minutes == 0
    then seconds
    else if ltb minutes 60
    then decimal minutes <> "m" <> seconds
    else decimal (minutes / 60) <> "h" <> decimal (minutes % 60) <> "m" <> seconds

span : ℕ → String
unfolding long
span n =
    if n == 0
    then "0s"
    else if ltb n 1000
    then decimal n <> "ns"
    else if ltb n 1000000
    then point n 3 <> "µs"
    else if ltb n 1000000000
    then point n 6 <> "ms"
    else long n

-- `Duration.String`, of a number of nanoseconds.
unfoldable pub duration_text : ℤ → String
unfolding span
duration_text (pos n) = span n
duration_text (negsuc n) = "-" <> span (suc n)

text_tests :
    (show (pos 1205) ≡ "1205")
    × (show (negsuc 29) ≡ "-30")
    × (duration_text (pos (15 * 60 * 10 ^ 9)) ≡ "15m0s")
    × (duration_text (pos (5400 * 10 ^ 9)) ≡ "1h30m0s")
    × (duration_text (pos 1500000000) ≡ "1.5s")
    × (duration_text (pos 2250) ≡ "2.25µs")
unfolding show duration_text
text_tests = (refl, refl, refl, refl, refl, refl)
