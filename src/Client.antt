-- ===== src/Client.antt =====
-- cmd/tsql/main.go: what the client sends for a line of the terminal, and which frames it reads.
pub mod Replies
use tsql.Base.{
  String, Bool, true, false, ◌||◌, Option, none, some, List, [], ◌∷◌, ◌++◌, if◌then◌else◌,
}
use tsql.Base.Bytes.{Bytes}
use tsql.Protocol.{JsonCodec}
use tsql.Platform.{Platform}
use tsql.Executor.Accessor.{Session}
use tsql.Server.{
  Frame, Request, dispatch, tables_frame, databases_frame, describe_frame, error_frame, written,
}
use tsql.Server.Replies.{is_ready}
use tsql.Server.Connection.{Message, request_of}

module _ {P : Platform} where
  -- The loop of sendQuery: the frames up to a ready frame, and what is left on the connection.
  unfoldable pub read_reply : List (Frame P) → List (Frame P) × List (Frame P)
  read_reply [] = ([], [])
  read_reply (f ∷ fs) =
      let (msgs, rest) = read_reply fs in if is_ready f then (f ∷ [], fs) else (f ∷ msgs, rest)

  -- The loop of listTables, listDatabases and describeTable: the frame that is wanted, and what is
  -- left behind it, or behind a ready frame.
  unfoldable pub read_listing :
      (Frame P → Bool) → List (Frame P) → Option (Frame P) × List (Frame P)
  read_listing wanted [] = (none, [])
  read_listing wanted (f ∷ fs) =
      let rest = read_listing wanted fs in
      if wanted f then (some f, fs) else if is_ready f then (none, fs) else rest

  abbrev pub is_tables : Frame P → Bool
  is_tables (tables_frame names) = true
  is_tables f = false

  abbrev pub is_databases : Frame P → Bool
  is_databases (databases_frame names) = true
  is_databases f = false

  abbrev pub is_description : Frame P → Bool
  is_description (describe_frame name rows) = true
  is_description (error_frame code) = true
  is_description f = false

-- A connection: the session at the server's end, and the frames that the client has not read yet.
pub record Link (P : Platform) : Type 0 where
  pub session : Session P
  pub inbox : List (Frame P)

abbrev pub sql_message : Bytes → Message
sql_message sql = record { type = "query"; sql = sql; name = "" }

abbrev pub plain_message : String → Message
plain_message type = record { type = type; sql = []; name = "" }

abbrev pub describe_message : String → Message
describe_message name = record { type = "describe"; sql = []; name = name }

module _ {P : Platform} where
  -- WriteFrame to the server, where the message arrives as it was sent, and the frames that the
  -- server writes.
  abbrev pub ask : JsonCodec (Frame P) → P.Time → Message → Link P → Link P
  ask j now m l =
      let r = dispatch now (request_of m) l.session in
      record { session = r.0; inbox = l.inbox ++ written j r.1 }

  unfoldable pub send_query :
      JsonCodec (Frame P) → P.Time → Bytes → Link P → List (Frame P) × Link P
  send_query j now sql l =
      let asked = ask j now (sql_message sql) l in
      let r = read_reply asked.inbox in (r.0, record asked { inbox = r.1 })

  abbrev pub listing :
      (Frame P → Bool) → JsonCodec (Frame P) → P.Time → Message → Link P → Option (Frame P) × Link P
  listing wanted j now m l =
      let asked = ask j now m l in
      let r = read_listing wanted asked.inbox in (r.0, record asked { inbox = r.1 })

  unfoldable pub list_tables : JsonCodec (Frame P) → P.Time → Link P → Option (Frame P) × Link P
  list_tables j now l = listing is_tables j now (plain_message "tables") l

  unfoldable pub list_databases : JsonCodec (Frame P) → P.Time → Link P → Option (Frame P) × Link P
  list_databases j now l = listing is_databases j now (plain_message "databases") l

  unfoldable pub describe_table :
      String → JsonCodec (Frame P) → P.Time → Link P → Option (Frame P) × Link P
  describe_table name j now l = listing is_description j now (describe_message name) l
