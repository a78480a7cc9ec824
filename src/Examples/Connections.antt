-- ===== src/Examples/Connections.antt =====
-- The theorem on the loop of a connection at a concrete input.
use tsql.Base.{◌≡◌, refl, arith, String, ◌&&◌, Option, none, some, List, [], ◌∷◌}
use tsql.Base.{◌++◌, str_eq, if◌then◌else◌, ok, err}
use tsql.Base.Bytes.{Bytes, be_bytes, read_full}
use tsql.Protocol.{JsonCodec, read_frame, ended, write_frame}
use tsql.Executor.Accessor.{Session}
use tsql.Server.Connection.{Message, handle, serve, write_frames, handle-serve}
use tsql.Examples.Host.{host}
use tsql.Examples.Sessions.{engine}

abbrev sql_message : Bytes → Message
sql_message sql = record { type = "query"; sql = sql; name = "" }

-- JSON of messages that are queries: a byte for the brace, and the text.
abbrev encode : String → Bytes → String → Option Bytes
encode t sql n = if str_eq t "query" && str_eq n "" then some (b'{' ∷ sql) else none

abbrev decode : Bytes → Option Message
decode [] = none
decode (c ∷ sql) = some (sql_message sql)

abbrev query_codec : JsonCodec Message
query_codec = record { marshal = λ m. encode m.type m.sql m.name; unmarshal = decode }

abbrev pub session : Session host
session = record { engine = engine; txn = none }

-- A BEGIN, and a query that does not parse.
abbrev messages : List Message
messages = sql_message (b'b' ∷ b'e' ∷ b'g' ∷ b'i' ∷ b'n' ∷ []) ∷ sql_message (39 ∷ []) ∷ []

abbrev sent : Bytes
sent = 0 ∷ 0 ∷ 0 ∷ 6 ∷ b'{' ∷ b'b' ∷ b'e' ∷ b'g' ∷ b'i' ∷ b'n' ∷ 0 ∷ 0 ∷ 0 ∷ 2 ∷ b'{' ∷ 39 ∷ []

messages_written : write_frames query_codec messages ≡ ok sent
unfolding write_frames write_frame be_bytes
messages_written = refl

-- Three bytes of the next length, and the end of the connection.
nothing_more : read_frame query_codec (0 ∷ 0 ∷ 0 ∷ []) ≡ err ended
unfolding read_frame read_full
nothing_more = refl

handle-serve_example :
    handle query_codec (λ n. n) 0 9 (sent ++ 0 ∷ 0 ∷ 0 ∷ []) session
    ≡ serve query_codec (λ n. n) 0 messages session
handle-serve_example =
    handle-serve query_codec (λ n. n) 0 9 messages session sent (0 ∷ 0 ∷ 0 ∷ []) ended
      messages_written nothing_more (omega arith)
