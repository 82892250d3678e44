-- ===== src/Socket/Defs/Packets.antt =====
-- `Message`, and the JSON texts of the two commands that follow a connection.
use next_dbm.Base.{
  ℕ, ◌+◌, ◌-◌, ◌/◌, ◌%◌, ◌&&◌, [], ◌∷◌, ◌++◌, Text, codes, concat, number_text, leb, ltb, ◌==◌,
  if◌then◌else◌, Option, none, some,
}

-- The type that `parseInt` gives is NaN, `none`, unless the first character is a digit.
pub record Packet : Type 0 where
  pub type : Option ℕ
  pub content : Text

abbrev pub message_closed : ℕ
message_closed = 0

abbrev pub message_connected : ℕ
message_connected = 1

abbrev pub message_data : ℕ
message_data = 2

abbrev pub message_ping : ℕ
message_ping = 4

-- `new Message(type, content).toString()`
unfoldable pub message_text : ℕ → Text → Text
message_text type content = number_text type ++ content

-- `parseInt` of one character.
abbrev pub parse_digit : ℕ → Option ℕ
parse_digit x = if leb 48 x && leb x 57 then some (x - 48) else none

-- `Message.parse`
unfoldable pub message_parse : Text → Packet
message_parse [] = record { type = none; content = [] }
message_parse (x ∷ s) = record { type = parse_digit x; content = s }

abbrev hex_digit : ℕ → ℕ
hex_digit n = if ltb n 10 then 48 + n else 87 + n

-- One character of a JSON string; lone surrogates do not occur in the texts that are sent.
abbrev json_char : ℕ → Text
json_char x =
    if x == 34
    then 92 ∷ 34 ∷ []
    else if x == 92
    then 92 ∷ 92 ∷ []
    else if x == 8
    then codes "\\b"
    else if x == 9
    then codes "\\t"
    else if x == 10
    then codes "\\n"
    else if x == 12
    then codes "\\f"
    else if x == 13
    then codes "\\r"
    else if ltb x 32
    then codes "\\u00" ++ (hex_digit (x / 16) ∷ hex_digit (x % 16) ∷ [])
    else x ∷ []

abbrev json_chars : Text → Text
json_chars [] = []
json_chars (x ∷ s) = json_char x ++ json_chars s

-- `JSON.stringify` of a text.
unfoldable pub json_string : Text → Text
json_string t = codes "\"" ++ (json_chars t ++ codes "\"")

-- `JSON.stringify` of a command of `onmessage`.
unfoldable pub command_json : Text → Text → Text → Text → Text
command_json key ret_type command asset_id = concat (
    codes "{\"key\":"
    ∷ json_string key
    ∷ codes ",\"retType\":"
    ∷ json_string ret_type
    ∷ codes ",\"data\":"
    ∷ json_string command
    ∷ codes ",\"attr\":{\"sqlCommand\":"
    ∷ json_string command
    ∷ codes ",\"assetId\":"
    ∷ json_string asset_id
    ∷ codes "}}"
    ∷ [])
