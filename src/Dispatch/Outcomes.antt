-- ===== src/Dispatch/Outcomes.antt =====
-- What depends on the protocol: MySQL and MariaDB, PostgreSQL, and any other.
use next_dbm.Base.{Bool, true, false}
use next_dbm.Dispatch.Defs.{Protocol}

abbrev pub per_protocol {ℓ} : {A : Type ℓ} → Protocol → (mysql postgre other : A) → A
per_protocol Protocol.mysql a b c = a
per_protocol Protocol.maria_db a b c = a
per_protocol Protocol.postgre_sql a b c = b
per_protocol (Protocol.other _) a b c = c

-- The protocols that the converter of MySQL answers.
abbrev pub is_mysql : Protocol → Bool
is_mysql protocol = per_protocol protocol true false false
