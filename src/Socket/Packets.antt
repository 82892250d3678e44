-- ===== src/Socket/Packets.antt =====
-- Messages written and read back.
use next_dbm.Base.{ℕ, ◌<◌, ◌≡◌, ap, Text, number_text, some, arith, ◌∷◌, ◌+◌, []}
use next_dbm.Socket.Defs.{message_text, message_parse}

number_text-digit : (n : ℕ) → n < 10 → number_text n ≡ (48 + n) ∷ []
unfolding number_text
number_text-digit n h = ground arith

-- A message whose type is below 10, as all of them are, is read back as it was, whatever its content.
pub message_parse-message_text :
    (type : ℕ) (content : Text)
    → type < 10
    → message_parse (message_text type content) ≡ record { type = some type; content = content }
unfolding message_parse message_text
message_parse-message_text type content h =
    rw (number_text-digit type h) (ap (λ t. record { type = t; content = content }) (ground arith))
