-- ===== src/Client/Replies.antt =====
-- On the client of cmd/tsql/main.go: which answers a statement is shown with.
use tsql.Base.{◌≡◌, refl, sym, Bool, false, List, [], ◌∷◌, ◌++◌, map, inl, inr}
use mathlib.Core.Path.{subst}
use mathlib.Core.List.{append-nil}
use tsql.Base.Bytes.{Bytes}
use tsql.Platform.{Platform}
use tsql.Executor.Accessor.{Session, view_of}
use tsql.Server.{Frame, has_panicked, written, dispatch, ready, in_txn, tables_frame, ready_frame}
use tsql.Server.Replies.{is_ready, IsSendable, IsReceived, dispatch-IsReceived}
use tsql.Protocol.{JsonCodec}
use tsql.Server.Connection.{request_of}
use tsql.Client.{Link, read_reply, read_listing, sql_message, send_query, list_tables}

module _ {P : Platform} where
  read_reply-own :
      (f : Frame P) (b : Bool) (rest : List (Frame P))
      → is_ready f ≡ false
      → read_reply (f ∷ ready_frame b ∷ rest) ≡ (f ∷ ready_frame b ∷ [], rest)
  unfolding read_reply
  read_reply-own f b rest n = rw n refl

  read_reply_ready :
      (b : Bool) (rest : List (Frame P))
      → read_reply (ready_frame b ∷ rest) ≡ (ready_frame b ∷ [], rest)
  unfolding read_reply
  read_reply_ready b rest = refl

  -- sendQuery reads just what is received for an answer, whatever is behind it.
  reply_read :
      (j : JsonCodec (Frame P)) (r : Session P × List (Frame P)) (rest : List (Frame P))
      → IsReceived j r
      → has_panicked r.1 ≡ false
      → read_reply (written j r.1 ++ rest) ≡ (written j r.1, rest)
  reply_read j r rest (inl (f, n, q, inl (k, w))) p =
      subst (λ fs. read_reply (fs ++ rest) ≡ (fs, rest)) (sym w)
        (read_reply-own f (in_txn r.0) rest n)
  reply_read j r rest (inl (f, n, q, inr (x, k, w))) p =
      subst (λ fs. read_reply (fs ++ rest) ≡ (fs, rest)) (sym w)
        (read_reply_ready (in_txn r.0) rest)
  reply_read j r rest (inr (q, w)) p = cc

  -- A connection on which nothing is left to read.
  abbrev pub fresh : Session P → Link P
  fresh s = record { session = s; inbox = [] }

  -- The server's answer to a statement: its session, and what it hands to WriteFrame.
  abbrev pub answer : P.Time → Bytes → Session P → Session P × List (Frame P)
  answer now sql s = dispatch now (request_of (sql_message sql)) s

  -- The ready frame of either kind can be written.
  abbrev pub IsReadySendable : JsonCodec (Frame P) → Type 0
  IsReadySendable j = (b : Bool) → IsSendable j (ready_frame b)

  answer-IsReceived :
      (j : JsonCodec (Frame P)) (now : P.Time) (sql : Bytes) (s : Session P)
      → IsReadySendable j
      → IsReceived j (answer now sql s)
  answer-IsReceived j now sql s k =
      dispatch-IsReceived j now (request_of (sql_message sql)) s (k (in_txn (answer now sql s).0))

  -- On a connection on which nothing is left to read, a statement is shown with the frames that the
  -- server writes in answer to it, and again nothing is left, unless the server panics. The
  -- statement arrives as it was sent, and WriteFrame can write the ready frames.
  pub send_query-fresh :
      (j : JsonCodec (Frame P)) (now : P.Time) (sql : Bytes) (s : Session P)
      → IsReadySendable j
      → has_panicked (answer now sql s).1 ≡ false
      → send_query j now sql (fresh s)
        ≡ (written j (answer now sql s).1, fresh (answer now sql s).0)
  unfolding send_query
  send_query-fresh j now sql s k p =
      let r = answer now sql s in
      rw
        (subst (λ fs. read_reply fs ≡ (written j r.1, [])) (append-nil (written j r.1))
          (reply_read j r [] (answer-IsReceived j now sql s k) p))
        refl

  -- The names of the tables, which a list of them carries.
  abbrev pub names_frame : Session P → Frame P
  names_frame s = tables_frame (map (λ d. d.name) (view_of s).catalog)

  list_tables-left :
      (j : JsonCodec (Frame P)) (now : P.Time) (s : Session P)
      → IsReadySendable j
      → IsSendable j (names_frame s)
      → (list_tables j now (fresh s)).1
        ≡ record { session = s; inbox = ready_frame (in_txn s) ∷ [] }
  unfolding list_tables request_of dispatch ready read_listing written
  list_tables-left j now s k (b, h) = rw h (rw (k (in_txn s)).1 refl)

  send_query-stale :
      (j : JsonCodec (Frame P)) (now : P.Time) (sql : Bytes) (b : Bool) (s : Session P)
      → send_query j now sql (record { session = s; inbox = ready_frame b ∷ [] }) ≡ (
        ready_frame b ∷ [],
        record { session = (answer now sql s).0; inbox = written j (answer now sql s).1 },
      )
  unfolding send_query read_reply
  send_query-stale j now sql b s = refl

  send_query-lag :
      (j : JsonCodec (Frame P)) (now : P.Time) (sql : Bytes) (s : Session P)
      (r : Session P × List (Frame P))
      → IsReceived j r
      → has_panicked r.1 ≡ false
      → (send_query j now sql (record { session = s; inbox = written j r.1 })).0 ≡ written j r.1
  unfolding send_query
  send_query-lag j now sql s r reply p =
      rw (reply_read j r (written j (answer now sql s).1) reply p) refl

  -- After a list of the tables, the first statement is shown with the ready frame of the list and
  -- nothing else, and the second one with the frames that the server writes in answer to the first,
  -- where the server does not panic at that: listTables returns at the frame with the names and
  -- leaves the ready frame behind it unread. The messages arrive as they were sent, and WriteFrame
  -- can write the names and the ready frames.
  pub send_query-list_tables :
      (j : JsonCodec (Frame P)) (now later last : P.Time) (first second : Bytes) (s : Session P)
      → IsReadySendable j
      → IsSendable j (names_frame s)
      → has_panicked (answer later first s).1 ≡ false
      → ((send_query j later first (list_tables j now (fresh s)).1).0 ≡ ready_frame (in_txn s) ∷ [])
        × ((send_query j last second (send_query j later first (list_tables j now (fresh s)).1).1).0
            ≡ written j (answer later first s).1)
  send_query-list_tables j now later last first second s k names p =
      rw (list_tables-left j now s k names, send_query-stale j later first (in_txn s) s)
        (
          refl,
          send_query-lag j last second (answer later first s).0 (answer later first s)
              (answer-IsReceived j later first s k) p,
        )
