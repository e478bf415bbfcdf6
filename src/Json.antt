-- ===== src/Json.antt =====
-- Canonical JSON (packages/core-schemas/src/canonical-json.ts). Numbers are natural numbers, as in
-- every document that the program hashes. An object is its list of fields in enumeration order; keys
-- that look like array indices, which JavaScript enumerates first, are not treated apart.
use Prim.Native.Char.{Char, code}
use wanfw.Common.{
  ℕ, zero, suc, ◌/◌, ◌%◌, String, Bool, true, false, List, [], ◌∷◌, append, eqb, ltb, if◌then◌else◌,
  text_le, map, Option, none, some, ◌==◌,
}

mutual
  pub data Json : Type 0 where
    null : Json
    bool : Bool → Json
    num : ℕ → Json
    str : String → Json
    arr : Items → Json
    obj : Fields → Json

  pub data Items : Type 0 where
    nil : Items
    cons : Json → Items → Items

  pub data Fields : Type 0 where
    end : Fields
    field : String → Json → Fields → Fields

-- The insertion of one field among fields sorted by key.
abbrev pub insert_field : String → Json → Fields → Fields
insert_field k v end = field k v end
insert_field k v (field j w fs) =
    if text_le k j then field k v (field j w fs) else field j w (insert_field k v fs)

unfoldable mutual
  pub canonicalize : Json → Json
  canonicalize null = null
  canonicalize (bool b) = bool b
  canonicalize (num n) = num n
  canonicalize (str s) = str s
  canonicalize (arr xs) = arr (canonicalize_items xs)
  canonicalize (obj fs) = obj (canonicalize_fields fs)

  pub canonicalize_items : Items → Items
  canonicalize_items nil = nil
  canonicalize_items (cons x xs) = cons (canonicalize x) (canonicalize_items xs)

  pub canonicalize_fields : Fields → Fields
  canonicalize_fields end = end
  canonicalize_fields (field k v fs) = insert_field k (canonicalize v) (canonicalize_fields fs)

digit : ℕ → String
digit n =
    if eqb n 0
    then "0"
    else if eqb n 1
    then "1"
    else if eqb n 2
    then "2"
    else if eqb n 3
    then "3"
    else if eqb n 4
    then "4"
    else if eqb n 5
    then "5"
    else if eqb n 6
    then "6"
    else if eqb n 7
    then "7"
    else if eqb n 8
    then "8"
    else if eqb n 9
    then "9"
    else if eqb n 10
    then "a"
    else if eqb n 11
    then "b"
    else if eqb n 12
    then "c"
    else if eqb n 13
    then "d"
    else if eqb n 14
    then "e"
    else "f"

decimal_from : ℕ → ℕ → String
decimal_from zero n = ""
decimal_from (suc fuel) n =
    let more = decimal_from fuel (n / 10) in
    if ltb n 10 then digit n else append more (digit (n % 10))

-- A number as JavaScript prints it; a number has fewer digits than its successor.
unfoldable pub decimal : ℕ → String
unfolding decimal_from digit
decimal n = decimal_from (suc n) n

-- One character inside a quoted text.
unfoldable pub quote_char : Char → String
unfolding digit
quote_char c =
    let n = code c in
    if eqb n 34
    then "\\\""
    else if eqb n 92
    then "\\\\"
    else if eqb n 8
    then "\\b"
    else if eqb n 12
    then "\\f"
    else if eqb n 10
    then "\\n"
    else if eqb n 13
    then "\\r"
    else if eqb n 9
    then "\\t"
    else if ltb n 32
    then append "\\u00" (append (digit (n / 16)) (digit (n % 16)))
    else String.◌∷◌ c String.[]

unfoldable pub quote_from : String → String
unfolding quote_char
quote_from String.[] = "\""
quote_from (String.◌∷◌ c s) = append (quote_char c) (quote_from s)

unfoldable pub quote : String → String
unfolding quote_from
quote s = append "\"" (quote_from s)

-- `JSON.stringify`, and what it prints after the first element or field
unfoldable mutual
  unfolding decimal quote

  pub stringify : Json → String
  stringify null = "null"
  stringify (bool true) = "true"
  stringify (bool false) = "false"
  stringify (num n) = decimal n
  stringify (str s) = quote s
  stringify (arr nil) = "[]"
  stringify (arr (cons x xs)) = append "[" (append (stringify x) (stringify_items xs))
  stringify (obj end) = "{}"
  stringify (obj (field k v fs)) =
      append "{" (append (quote k) (append ":" (append (stringify v) (stringify_fields fs))))

  pub stringify_items : Items → String
  stringify_items nil = "]"
  stringify_items (cons x xs) = append "," (append (stringify x) (stringify_items xs))

  pub stringify_fields : Fields → String
  stringify_fields end = "}"
  stringify_fields (field k v fs) =
      append "," (append (quote k) (append ":" (append (stringify v) (stringify_fields fs))))

unfoldable pub canonical_json_stringify : Json → String
unfolding canonicalize stringify
canonical_json_stringify value = stringify (canonicalize value)

abbrev pub items : List Json → Items
items [] = nil
items (x ∷ xs) = cons x (items xs)

abbrev pub strs : List String → Json
strs ws = arr (items (map str ws))

-- The value under a key, `undefined` where there is none.
abbrev pub get_field : String → Fields → Option Json
get_field k end = none
get_field k (field j v fs) = if j == k then some v else get_field k fs

abbrev pub as_texts : Items → List String
as_texts nil = []
as_texts (cons (str s) xs) = s ∷ as_texts xs
as_texts (cons x xs) = as_texts xs

-- A value cast to `string[]`
abbrev pub as_strings : Json → List String
as_strings (arr xs) = as_texts xs
as_strings v = []

abbrev pub as_numbers : Items → List ℕ
as_numbers nil = []
as_numbers (cons (num n) xs) = n ∷ as_numbers xs
as_numbers (cons x xs) = as_numbers xs

-- A value cast to `number[]`
abbrev pub as_nums : Json → List ℕ
as_nums (arr xs) = as_numbers xs
as_nums v = []
