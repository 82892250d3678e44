-- ===== src/Socket/Defs/Incoming.antt =====
-- `webSocketOnData` of visibilityProvider.js. What a text is as JSON is asked of the language's parser, a
-- parameter here; `addSqlLogs`, `doImport` and the toast are logged. A text that is `null`, on which the
-- handler throws, is left out.
use next_dbm.Base.{
  ℕ, suc, zero, Bool, true, false, not, ◌&&◌, List, [], ◌∷◌, ◌++◌, Text, codes, text_eq, ltb,
  if◌then◌else◌, Option, none, some,
}

-- The fields of an answer that the handler reads. `none` is `undefined`.
pub record Header : Type 0 where
  pub ret_type : Option Text
  pub code : Option ℕ
  pub msg : Option Text

-- `buffer`, `attempts`, what `setJsonObject` has been given, the answers that `addSqlLogs` has been given,
-- and those that were shown as an error.
pub record Buffer : Type 0 where
  pub buffer : Text
  pub attempts : ℕ
  pub objects : List Text
  pub logs : List Header
  pub errors : List Header

abbrev pub is_code_zero : Option ℕ → Bool
is_code_zero (some zero) = true
is_code_zero _ = false

abbrev pub is_type : Option Text → Text → Bool
is_type none name = false
is_type (some type) name = text_eq type name

-- Whether an answer is shown as an error and kept from the buffer.
unfoldable pub is_error : Header → Bool
is_error h =
    not (is_type h.ret_type (codes "tableRsesult"))
    && (not (is_code_zero h.code) && not (is_type h.ret_type (codes "tableStruct")))

abbrev pub is_parsed : Option Header → Bool
is_parsed none = false
is_parsed (some h) = true

-- The text is added to the buffer; after more than 5 attempts everything is dropped.
unfoldable pub add_to_buffer : (Text → Option Header) → Text → Buffer → Buffer
add_to_buffer parse data' b =
    let joined = b.buffer ++ data' in
    if is_parsed (parse joined)
    then record b { buffer = []; attempts = 0; objects = b.objects ++ (joined ∷ []) }
    else if ltb 5 (suc b.attempts)
    then record b { buffer = []; attempts = 0 }
    else record b { buffer = joined; attempts = suc b.attempts }

-- `addSqlLogs`
abbrev pub add_log : Header → Buffer → Buffer
add_log h b = record b { logs = b.logs ++ (h ∷ []) }

abbrev pub add_parsed : (Text → Option Header) → Text → Option Header → Buffer → Buffer
add_parsed parse data' none b = add_to_buffer parse data' b
add_parsed parse data' (some h) b =
    if is_error h
    then record (add_log h b) { errors = b.errors ++ (h ∷ []) }
    else add_to_buffer parse data' (add_log h b)

unfoldable pub add_data : (Text → Option Header) → Text → Buffer → Buffer
add_data parse data' b = add_parsed parse data' (parse data') b

unfoldable pub add_all : (Text → Option Header) → List Text → Buffer → Buffer
add_all parse [] b = b
add_all parse (d ∷ rest) b = add_all parse rest (add_data parse d b)
