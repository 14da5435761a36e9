-- ===== src/Delivery/Digest.antt =====
-- The test of an output digest in src/swarph_cli/delivery_queue.py: a text of 64 characters that
-- Python's `int(x, 16)` reads.
use Prim.Native.Char.{code}
use swarph_cli.Prelude.{
  ℕ, String, Bool, true, false, ◌&&◌, ◌||◌, ◌≡◌, refl, length, leb, ◌==◌, if◌then◌else◌, nat_eq,
}
use swarph_cli.Prelude.Text.{codes, strip}
use swarph_cli.Prelude.Python.{Value, str}

abbrev pub is_hex_digit : ℕ → Bool
is_hex_digit c = leb b'0' c && leb c b'9' || leb b'a' c && leb c b'f' || leb b'A' c && leb c b'F'

-- The digits that are left; one underscore may stand between two digits. `after_digit` says that a
-- digit came right before.
unfoldable pub digits_left : Bool → String → Bool
digits_left after_digit String.[] = after_digit
digits_left after_digit (String.◌∷◌ c s) =
    let digit = digits_left true s in
    let separator = digits_left false s in
    if is_hex_digit (code c) then digit else code c == b'_' && after_digit && separator

-- After `0x`, where an underscore may stand before the first digit.
abbrev pub after_0x : String → Bool
after_0x String.[] = false
after_0x (String.◌∷◌ c s) =
    if code c == b'_' then digits_left false s else digits_left false (String.◌∷◌ c s)

-- `0x` or `0X` and digits, or digits alone.
unfoldable pub unsigned : String → Bool
unfolding digits_left
unsigned (String.◌∷◌ z (String.◌∷◌ x s)) =
    if code z == b'0' && (code x == b'x' || code x == b'X')
    then after_0x s
    else digits_left false (String.◌∷◌ z (String.◌∷◌ x s))
unsigned s = digits_left false s

abbrev pub after_sign : String → Bool
after_sign String.[] = false
after_sign (String.◌∷◌ c s) =
    if code c == b'+' || code c == b'-' then unsigned s else unsigned (String.◌∷◌ c s)

-- `int(s, 16)` raises no ValueError. Of the decimal digits of Unicode only the ASCII ones are read.
unfoldable pub int_16 : String → Bool
unfolding unsigned strip
int_16 s = after_sign (strip s)

-- `isinstance(v, str) and len(v) == 64` and `int(v, 16)`
unfoldable pub is_digest : Value → Bool
unfolding int_16
is_digest (str s) = length (codes s) == 64 && int_16 s
is_digest _ = false

int_16_examples :
    (int_16 " 0xFf\n" ≡ true)
    × (int_16 "-1_0" ≡ true)
    × (int_16 "1__0" ≡ false)
    × (int_16 "0x" ≡ false)
    × (int_16 "_1" ≡ false)
    × (int_16 "0x_1" ≡ true)
    × (int_16 "" ≡ false)
    × (int_16 "fg" ≡ false)
unfolding int_16
int_16_examples = (refl, refl, refl, refl, refl, refl, refl, refl)
