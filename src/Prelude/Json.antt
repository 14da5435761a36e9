-- ===== src/Prelude/Json.antt =====
-- `json.dumps(value, sort_keys=True, separators=(",", ":"))` as Python writes it: keys in the order of
-- their code points, and every character outside of printable ASCII escaped.
use Prim.Native.Nat.{ℕ, ◌+◌, ◌-◌, ◌%◌, ◌/◌, Ordering}
use Prim.Native.Char.{Char, code}
use Prim.Native.String.{String, ◌++◌ as join, compare}
use mathlib.Core.Path.{◌≡◌, refl}
use mathlib.Core.Bool.{true, false, ◌||◌}
use mathlib.Core.List.{List, [], ◌∷◌}
use swarph_cli.Prelude.Tests.{ltb, leb, ◌==◌, if◌then◌else◌, nat_eq}
use swarph_cli.Prelude.Text.{digit, decimal}
use swarph_cli.Prelude.Python.{Value, Fields, null, bool, int, neg, str, dict, end, field}

abbrev hex_digit : ℕ → String
hex_digit n =
    if ltb n 10
    then digit n
    else if n == 10
    then "a"
    else if n == 11
    then "b"
    else if n == 12
    then "c"
    else if n == 13
    then "d"
    else if n == 14
    then "e"
    else "f"

-- `\uXXXX`
abbrev escape_16 : ℕ → String
escape_16 n = join "\\u" (
    join (hex_digit (n / 4096))
      (join (hex_digit (n / 256 % 16)) (join (hex_digit (n / 16 % 16)) (hex_digit (n % 16)))))

-- One character; above 16 bits a pair of surrogates.
unfoldable pub escaped : Char → String
escaped c =
    let n = code c in
    if n == b'"'
    then "\\\""
    else if n == 92
    then "\\\\"
    else if n == 10
    then "\\n"
    else if n == 13
    then "\\r"
    else if n == 9
    then "\\t"
    else if n == 12
    then "\\f"
    else if n == 8
    then "\\b"
    else if ltb n 32 || leb 127 n
    then (if leb n 0xffff
        then escape_16 n
        else join (escape_16 (0xd800 + (n - 0x10000) / 1024))
            (escape_16 (0xdc00 + (n - 0x10000) % 1024)))
    else String.◌∷◌ c ""

unfoldable pub escaped_text : String → String
unfolding escaped
escaped_text String.[] = ""
escaped_text (String.◌∷◌ c s) = join (escaped c) (escaped_text s)

unfoldable pub quoted : String → String
unfolding escaped_text
quoted s = join "\"" (join (escaped_text s) "\"")

-- The items of an object by their keys.
unfoldable pub insert_item : String × String → List (String × String) → List (String × String)
insert_item a [] = a ∷ []
insert_item a (b ∷ items) = elim (compare a.0 b.0) [
  | Ordering.gt ↦ b ∷ insert_item a items
  | _ ↦ a ∷ b ∷ items
]

unfoldable pub sort_items : List (String × String) → List (String × String)
unfolding insert_item
sort_items [] = []
sort_items (a ∷ items) = insert_item a (sort_items items)

unfoldable pub item_text : String × String → String
unfolding quoted
item_text a = join (quoted a.0) (join ":" a.1)

unfoldable pub more_items : List (String × String) → String
unfolding item_text
more_items [] = ""
more_items (a ∷ items) = join "," (join (item_text a) (more_items items))

unfoldable pub items_text : List (String × String) → String
unfolding more_items item_text
items_text [] = ""
items_text (a ∷ items) = join (item_text a) (more_items items)

unfoldable mutual
  unfolding quoted decimal sort_items items_text

  pub dumps : Value → String
  dumps null = "null"
  dumps (bool true) = "true"
  dumps (bool false) = "false"
  dumps (int n) = decimal n
  dumps (neg n) = join "-" (decimal (n + 1))
  dumps (str s) = quoted s
  dumps (dict d) = join "{" (join (items_text (sort_items (item_texts d))) "}")

  -- The keys, each with the text of its value.
  pub item_texts : Fields → List (String × String)
  item_texts end = []
  item_texts (field k v d) = (k, dumps v) ∷ item_texts d

dumps_sorts :
    dumps (dict (field "b" (int 12) (field "a" (dict (field "k" (str "\"é") end)) end)))
    ≡ "{\"a\":{\"k\":\"\\\"\\u00e9\"},\"b\":12}"
unfolding dumps
dumps_sorts = refl
