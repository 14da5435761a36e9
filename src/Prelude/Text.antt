-- ===== src/Prelude/Text.antt =====
-- The methods of Python's `str` that the program calls, over the native texts.
use Prim.Native.Nat.{ℕ, zero, suc, ◌+◌, ◌%◌, ◌/◌}
use Prim.Native.Char.{Char, code}
use Prim.Native.String.{String, ◌++◌ as join}
use mathlib.Core.Path.{◌≡◌, refl}
use mathlib.Core.Bool.{Bool, true, ◌&&◌, ◌||◌}
use mathlib.Core.Option.{Option, none, some}
use mathlib.Core.List.{List, [], ◌∷◌}
use swarph_cli.Prelude.Tests.{leb, ◌==◌, if◌then◌else◌, nat_eq, string_eq, option_eq}

-- The code points of a text.
abbrev pub codes : String → List ℕ
codes String.[] = []
codes (String.◌∷◌ c s) = code c ∷ codes s

-- `str.isspace` of one character.
unfoldable pub is_space : ℕ → Bool
is_space c =
    leb 9 c && leb c 13
    || leb 28 c && leb c 32
    || c == 0x85
    || c == 0xa0
    || c == 0x1680
    || leb 0x2000 c && leb c 0x200a
    || c == 0x2028
    || c == 0x2029
    || c == 0x202f
    || c == 0x205f
    || c == 0x3000

unfoldable pub lstrip : String → String
unfolding is_space
lstrip String.[] = ""
lstrip (String.◌∷◌ c s) = if is_space (code c) then lstrip s else String.◌∷◌ c s

unfoldable pub rstrip : String → String
unfolding is_space
rstrip String.[] = ""
rstrip (String.◌∷◌ c s) =
    let rest = rstrip s in if rest == "" && is_space (code c) then "" else String.◌∷◌ c rest

-- `str.strip()`
unfoldable pub strip : String → String
unfolding lstrip rstrip
strip s = rstrip (lstrip s)

-- `str.removeprefix`; `none` where the text does not start so, as `startswith` tests it.
unfoldable pub after_prefix : String → String → Option String
after_prefix String.[] s = some s
after_prefix (String.◌∷◌ p ps) String.[] = none
after_prefix (String.◌∷◌ p ps) (String.◌∷◌ c s) =
    if code p == code c then after_prefix ps s else none

abbrev push_head : Char → List String → List String
push_head c [] = String.◌∷◌ c "" ∷ []
push_head c (w ∷ ws) = String.◌∷◌ c w ∷ ws

-- `str.split` at a one-character separator: the pieces between its occurrences, empty ones kept.
unfoldable pub split : ℕ → String → List String
split sep String.[] = "" ∷ []
split sep (String.◌∷◌ c s) =
    let rest = split sep s in if code c == sep then "" ∷ rest else push_head c rest

-- `str.isascii()`
unfoldable pub is_ascii : String → Bool
is_ascii String.[] = true
is_ascii (String.◌∷◌ c s) = leb (code c) 127 && is_ascii s

abbrev pub digit : ℕ → String
digit n =
    if n == 0
    then "0"
    else if n == 1
    then "1"
    else if n == 2
    then "2"
    else if n == 3
    then "3"
    else if n == 4
    then "4"
    else if n == 5
    then "5"
    else if n == 6
    then "6"
    else if n == 7
    then "7"
    else if n == 8
    then "8"
    else "9"

-- `str(n)`: a number has no more digits than it counts, so `n + 1` steps are enough.
unfoldable pub decimal_steps : ℕ → ℕ → String
decimal_steps zero n = ""
decimal_steps (suc steps) n =
    let high = decimal_steps steps (n / 10) in
    if leb n 9 then digit n else join high (digit (n % 10))

unfoldable pub decimal : ℕ → String
unfolding decimal_steps
decimal n = decimal_steps (n + 1) n

strip_bearer : strip "  a b \n" ≡ "a b"
unfolding strip
strip_bearer = refl

split_jwt : split b'.' "a..b" ≡ "a" ∷ "" ∷ "b" ∷ []
unfolding split
split_jwt = refl

after_prefix_bearer : after_prefix "Bearer " "Bearer x" ≡ some "x"
unfolding after_prefix
after_prefix_bearer = refl

decimal_examples : (decimal 0 ≡ "0") × (decimal 7042 ≡ "7042")
unfolding decimal
decimal_examples = (refl, refl)
