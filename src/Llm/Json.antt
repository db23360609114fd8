-- ===== src/Llm/Json.antt =====
-- `json.dumps(value, sort_keys=True)` with its default separators and ASCII escapes.
-- A value of another type, which `default=str` would print, is a `string` of `Json`.
use grounded_ops_agent.Llm.Types.{
  Json, null, bool, integer, floating, string, arr, obj, Items, nil, cons, Fields, no_fields, field,
}
use grounded_ops_agent.Prelude.{
  ℕ, suc, ◌+◌, ◌-◌, ◌/◌, ◌%◌, true, false, ◌&&◌, List, [], ◌∷◌, ◌++◌, map, ltb, leb, if◌then◌else◌,
  concat, ◌==◌, nat_eq, Text, text_eq,
}
use grounded_ops_agent.Prelude.Int.{ℤ, pos, negsuc}
use grounded_ops_agent.Text.Chars.{codes}
use grounded_ops_agent.Text.Decimal.{decimal}
use grounded_ops_agent.Text.Order.{text_leb}
use grounded_ops_agent.Text.Words.{join}

hex_digit : ℕ → ℕ
hex_digit d = if ltb d 10 then 48 + d else 87 + d

-- `\uXXXX`
unfoldable pub escape_code : ℕ → Text
unfolding hex_digit
escape_code c =
    codes "\\u"
    ++ (hex_digit (c / 4096 % 16)
        ∷ hex_digit (c / 256 % 16)
        ∷ hex_digit (c / 16 % 16)
        ∷ hex_digit (c % 16)
        ∷ [])

unfoldable pub escape_char : ℕ → Text
unfolding escape_code
escape_char c =
    if c == 34
    then codes "\\\""
    else if c == 92
    then codes "\\\\"
    else if c == 10
    then codes "\\n"
    else if c == 13
    then codes "\\r"
    else if c == 9
    then codes "\\t"
    else if c == 12
    then codes "\\f"
    else if c == 8
    then codes "\\b"
    else if leb 32 c && leb c 126
    then c ∷ []
    else if ltb c 65536
    then escape_code c
    else escape_code (55296 + (c - 65536) / 1024) ++ escape_code (56320 + (c - 65536) % 1024)

unfoldable pub dump_string : Text → Text
unfolding escape_char
dump_string s = codes "\"" ++ (concat (map escape_char s) ++ codes "\"")

unfoldable pub dump_integer : ℤ → Text
dump_integer (pos n) = decimal n
dump_integer (negsuc n) = codes "-" ++ decimal (suc n)

-- `sorted(dct.items())`: the keys of a dict differ, so the values are not compared.
unfoldable pub insert_item : Text → Text → List (Text × Text) → List (Text × Text)
insert_item k v [] = (k, v) ∷ []
insert_item k v ((j, w) ∷ items) =
    if text_leb k j then (k, v) ∷ (j, w) ∷ items else (j, w) ∷ insert_item k v items

unfoldable pub sort_items : List (Text × Text) → List (Text × Text)
unfolding insert_item
sort_items [] = []
sort_items ((k, v) ∷ items) = insert_item k v (sort_items items)

abbrev item_text : Text × Text → Text
item_text (k, v) = dump_string k ++ (codes ": " ++ v)

unfoldable pub dump_object : List (Text × Text) → Text
unfolding sort_items dump_string
dump_object items = codes "{" ++ (join (codes ", ") (map item_text (sort_items items)) ++ codes "}")

unfoldable mutual
  unfolding dump_object dump_integer dump_string

  pub dumps : Json → Text
  dumps null = codes "null"
  dumps (bool true) = codes "true"
  dumps (bool false) = codes "false"
  dumps (integer n) = dump_integer n
  dumps (floating t) = t
  dumps (string s) = dump_string s
  dumps (arr xs) = codes "[" ++ (join (codes ", ") (dump_items xs) ++ codes "]")
  dumps (obj fs) = dump_object (dump_fields fs)

  pub dump_items : Items → List Text
  dump_items nil = []
  dump_items (cons x xs) = dumps x ∷ dump_items xs

  -- The keys with the printed values, in the order of the dict.
  pub dump_fields : Fields → List (Text × Text)
  dump_fields no_fields = []
  dump_fields (field k v fs) = (k, dumps v) ∷ dump_fields fs
