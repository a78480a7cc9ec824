-- ===== src/Lib.antt =====
-- TSQL, a small SQL database: a model of its storage engine, its executor and its connections.
--
-- Parts, with their files and the code that they follow:
--   * Types (internal/types/types.go): SQL values, Value.Compare and ColumnType.Check.
--   * Schema (internal/schema/schema.go): columns, table definitions and TableDef.Validate.
--   * Storage.Table and Storage.Engine (internal/storage/engine.go): the rows of a table with its
--     UNIQUE index, the catalog, and the autocommit operations CreateTable, DropTable, Put, PutAuto,
--     Update, Delete, ReserveID, Get and UniqueGet. Storage.Operations composes them into runs.
--   * Storage.Wal (internal/storage/wal.go): the log, and what the disk does with each append.
--   * Storage.Recovery (Open of engine.go, LoadLatestSnapshot of snapshot.go) and
--     Storage.Checkpoint (Checkpoint and pruneSnapshots of engine.go).
--   * Storage.Txn (internal/storage/txn.go): explicit transactions, which buffer their writes and
--     read them over the committed rows. Storage.Commit: Txn.Commit and commitTxn, which check the
--     buffer, log it and apply it.
--   * Storage.Frame (internal/storage/wal.go): the bytes of the log, from encodeRecord to OpenWAL.
--   * Executor.Expr, Scope, Eval, Aggregate, ForeignKeys and Catalog
--     (internal/executor/executor.go, and the syntax tree of internal/parser/parser.go): column
--     resolution, validation, three-valued evaluation, aggregates, the checks of foreign keys over a
--     view of the storage, and CREATE and DROP TABLE.
--   * Executor.Plan, Join, Group and Select (executor.go): SELECT, from the plans of its fields over
--     its joins, groups and order to its result; Select runs subqueries and derived tables first.
--   * Executor.Accessor, Insert, Modify and Statement (executor.go): INSERT, UPDATE and DELETE over a
--     session, which is the engine with the transaction in flight, and Exec.
--   * Parser (internal/parser/parser.go): Lexer is lex over the bytes of the source, Tokens the parser
--     type with peek, next and the tests of a token, Expressions parsePrimary to parseOr, Selects
--     parseSelect, and Statements the other statements and Parse. The state of the parser is the list
--     of the tokens from the current one on. parseExpr and parseSelect call each other: the functions
--     between them take the two as a Knot, which Selects ties on fuel. Parser.Grammar is the grammar
--     of the file's head as a relation.
--   * Protocol (internal/protocol/protocol.go): WriteFrame and ReadFrame.
--   * Server (internal/server/server.go): dispatch and runQuery of one connection, whose state is a
--     session, with the frames that it hands to WriteFrame and those that are sent.
--     Server.Connection: the loop of handle over the bytes that arrive, which runs ReadFrame, Parse
--     and dispatch.
--   * Client (cmd/tsql/main.go): sendQuery, listTables, listDatabases and describeTable, over a
--     connection, which is the session of the server and the frames that are not read yet.
--   * Platform is what Go and the host provide: float64, time.Time and the clock. Every theorem holds
--     for every platform; Examples.Host is one at which the theorems are run.
--   * Base holds the shared helpers, Examples the theorems at concrete inputs, and Storage.Scenarios
--     two runs across crashes.
--
-- State is passed explicitly: an operation takes the engine and returns it with its result. The
-- maps of Go are lists of keys with values. An int64 is an integer kept in range by `wrap64`;
-- table ids and transaction ids wrap at 32 and 64 bits; before table ids wrap, no two tables have
-- one id. A run of the log meets a list of outcomes, one for each append, which says whether the
-- record reached the file and whether ReadRecords comes to it, which it does not behind a record
-- that is too long. Every function is total by recursion on its data. The fuel of the decimal
-- printer is 20 rounds, for the digits of an int64; that of the loop over the frames of a log is
-- the number of bytes of the file, since a round takes 17 of them; that of the loop of the lexer
-- is the number of bytes of the source, since a round takes one of them. The loops of the parser
-- get a round for each token that is left, and the knot one for each token, since a level of
-- parentheses takes one.
--
-- gob, crc32 and encoding/json are parameters: Storage.Frame.Codec, with the hypothesis that a value
-- decodes from its encoding, and Protocol.JsonCodec, which may lose what it encodes. WriteFrame's
-- error is ignored as in the server: Server.written are the frames that are sent of the ones that
-- dispatch hands to it. sort.SliceStable is an insertion sort, which is the same where the order is
-- transitive on the keys. A statement reads the clock once. A panic of Go, on an index out of range
-- or an integer division by zero, is the error runtime_panic.
--
-- Not modelled: locks (each operation is one step), the bytes of the snapshots, the messages of
-- errors, the sockets of the server, the terminal of the client, and the flags and signals of the
-- daemon.
pub mod Base
pub mod Platform
pub mod Types
pub mod Schema
pub mod Storage
pub mod Executor
pub mod Parser
pub mod Protocol
pub mod Server
pub mod Client
pub mod Examples
