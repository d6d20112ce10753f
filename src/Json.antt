-- ===== src/Json.antt =====
-- `json.dumps(value, ensure_ascii=False, separators=(",", ":"))`, as apps/api/app/sse.py calls it.
pub mod Clean
use triage_assistant.Prelude.{
  ℕ, zero, suc, ◌+◌, ◌/◌, ◌%◌, ◌==◌, Bool, true, false, String, List, [], ◌∷◌, ltb, code,
  if◌then◌else◌, ◌+++◌, front, back,
}

-- A number stands as its text.
mutual
  pub data Json : Type 0 where
    null : Json
    boolean : Bool → Json
    numeral : String → Json
    string : String → Json
    array : Items → Json
    object : Fields → Json

  pub data Items : Type 0 where
    nil : Items
    cons : Json → Items → Items

  pub data Fields : Type 0 where
    end : Fields
    field : String → Json → Fields → Fields

-- A digit of base 16.
unfoldable pub hex : ℕ → String
hex n = front 1 (back n "0123456789abcdef")

-- A character inside quotes.
unfoldable pub escape : ℕ → String → String
unfolding hex
escape c s =
    if c == b'"'
    then "\\\""
    else if c == b'\\'
    then "\\\\"
    else if c == b'\n'
    then "\\n"
    else if c == b'\r'
    then "\\r"
    else if c == b'\t'
    then "\\t"
    else if c == 8
    then "\\b"
    else if c == 12
    then "\\f"
    else if ltb c 32
    then "\\u00" +++ hex (c / 16) +++ hex (c % 16)
    else s

unfoldable pub escaped : String → String
unfolding escape
escaped String.[] = ""
escaped (String.◌∷◌ c s) = escape (code c) (String.◌∷◌ c "") +++ escaped s

unfoldable pub quoted : String → String
unfolding escaped
quoted s = "\"" +++ escaped s +++ "\""

unfoldable mutual
  unfolding quoted

  pub dumps : Json → String
  dumps null = "null"
  dumps (boolean true) = "true"
  dumps (boolean false) = "false"
  dumps (numeral n) = n
  dumps (string s) = quoted s
  dumps (array items) = "[" +++ dumps_items items +++ "]"
  dumps (object fields) = "{" +++ dumps_fields fields +++ "}"

  pub dumps_items : Items → String
  dumps_items nil = ""
  dumps_items (cons v rest) = dumps v +++ dumps_more rest

  pub dumps_more : Items → String
  dumps_more nil = ""
  dumps_more (cons v rest) = "," +++ dumps v +++ dumps_more rest

  pub dumps_fields : Fields → String
  dumps_fields end = ""
  dumps_fields (field k v rest) = quoted k +++ ":" +++ dumps v +++ dumps_others rest

  pub dumps_others : Fields → String
  dumps_others end = ""
  dumps_others (field k v rest) = "," +++ quoted k +++ ":" +++ dumps v +++ dumps_others rest
