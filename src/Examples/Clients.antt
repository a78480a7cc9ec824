-- ===== src/Examples/Clients.antt =====
-- The theorems on the client at concrete inputs.
use tsql.Base.{◌≡◌, refl, false, [], ◌∷◌}
use tsql.Base.Bytes.{Bytes, be_bytes}
use tsql.Parser.Lexer.{lex, lex_from, lex_round, lex_string}
use tsql.Parser.Statements.{parse}
use tsql.Server.{has_panicked, written, ready_frame, in_txn, dispatch, run_query, fail, ready}
use tsql.Server.Connection.{request_of}
use tsql.Server.Replies.{IsSendable}
use tsql.Protocol.{write_frame}
use tsql.Examples.Wire.{small_codec, ready_sent}
use tsql.Examples.Host.{host}
use tsql.Client.{Link, send_query, list_tables}
use tsql.Client.Replies.{fresh, answer, names_frame, send_query-fresh, send_query-list_tables}
use tsql.Examples.Connections.{session}

-- A quote that is not closed.
abbrev quote_sql : Bytes
quote_sql = 39 ∷ []

answered_quote : has_panicked (answer 0 quote_sql session).1 ≡ false
unfolding request_of parse lex lex_from lex_round lex_string dispatch run_query fail ready
answered_quote = refl

send_query-fresh_example :
    send_query small_codec 0 quote_sql (fresh session)
    ≡ (written small_codec (answer 0 quote_sql session).1, fresh (answer 0 quote_sql session).0)
send_query-fresh_example =
    send_query-fresh small_codec 0 quote_sql session ready_sent answered_quote

names_sent : IsSendable small_codec (names_frame session)
unfolding write_frame be_bytes
names_sent = (0 ∷ 0 ∷ 0 ∷ 1 ∷ 4 ∷ [], refl)

-- The statement after a list of the tables, and the one after that.
abbrev second_link : Link host
second_link = (send_query small_codec 0 quote_sql (list_tables small_codec 0 (fresh session)).1).1

send_query-list_tables_example :
    ((send_query small_codec 0 quote_sql (list_tables small_codec 0 (fresh session)).1).0
      ≡ ready_frame (in_txn session) ∷ [])
    × ((send_query small_codec 0 [] second_link).0
        ≡ written small_codec (answer 0 quote_sql session).1)
send_query-list_tables_example =
    send_query-list_tables small_codec 0 0 0 quote_sql [] session ready_sent names_sent
      answered_quote
