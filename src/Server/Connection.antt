-- ===== src/Server/Connection.antt =====
-- handle in internal/server/server.go: the loop over the messages of one connection, from the bytes
-- that arrive to the
-- frames that are handed to WriteFrame for the answers.
use tsql.Base.{ℕ, zero, suc, ◌<◌, ◌≡◌, refl, sym, arith, String}
use tsql.Base.{
  Option, none, some, List, [], ◌∷◌, ◌++◌, length, str_eq, if◌then◌else◌, Result, ok, err,
}
use tsql.Base.{◌>>=◌, bind-eq-ok, ok-injective}
use mathlib.Core.List.{append_assoc}
use mathlib.Core.Path.{subst}
use tsql.Base.Bytes.{Bytes}
use tsql.Platform.{Platform}
use tsql.Protocol.{
  JsonCodec, FrameError, bad_json, or_error, write_frame, read_frame, read_frame-write_frame,
}
use tsql.Executor.Accessor.{Session}
use tsql.Executor.Statement.{Statement}
use tsql.Parser.Lexer.{ParseError}
use tsql.Parser.Statements.{parse}
use tsql.Server.{Frame, has_panicked, Request, query, tables, databases, describe, other_type}
use tsql.Server.{dispatch, disconnect}

-- Type, SQL and Name of a Message, which are what a client sends.
pub record Message : Type 0 where
  pub type : String
  pub sql : Bytes
  pub name : String

module _ {P : Platform} where
  abbrev pub statement_of : Result ParseError (Statement P) → Option (Statement P)
  statement_of (ok st) = some st
  statement_of (err e) = none

  -- The cases of dispatch, with Parse where runQuery calls it.
  unfoldable pub request_of : Message → Request P
  request_of m =
      if str_eq m.type "query"
      then query (statement_of (parse m.sql))
      else if str_eq m.type "tables"
      then tables
      else if str_eq m.type "databases"
      then databases
      else if str_eq m.type "describe"
      then describe m.name
      else other_type

  -- The loop ends with the process after a panic.
  abbrev pub followed :
      Session P × List (Frame P)
      → (Session P → Session P × List (Frame P))
      → Session P × List (Frame P)
  followed (s, fs) rest = let r = rest s in if has_panicked fs then (s, fs) else (r.0, fs ++ r.1)

  abbrev pub on_message :
      Result FrameError (Message × Bytes)
      → (Message → Bytes → Session P × List (Frame P))
      → Session P
      → Session P × List (Frame P)
  on_message (ok (m, rest)) f s = f m rest
  on_message (err x) f s = (disconnect s, [])

  -- The loop of handle over the bytes that arrive until the connection ends, with the clock at the
  -- n-th message; a round takes at least the four bytes of a length.
  unfoldable pub handle :
      JsonCodec Message → (ℕ → P.Time) → ℕ → ℕ → Bytes → Session P → Session P × List (Frame P)
  handle j clock n zero input s = (s, [])
  handle j clock n (suc fuel) input s =
      on_message (read_frame j input)
        (λ m rest.
          followed (dispatch (clock n) (request_of m) s) (handle j clock (suc n) fuel rest))
        s

-- The bytes of messages that a client writes one after the other.
unfoldable pub write_frames : JsonCodec Message → List Message → Result FrameError Bytes
write_frames j [] = ok []
write_frames j (m ∷ ms) = write_frame j m >>= λ b. write_frames j ms >>= λ bs. ok (b ++ bs)

-- What JSON decodes from what it encodes for a message, which need not be the message itself.
unfoldable pub carried_over : JsonCodec Message → Message → Option Message
carried_over j m = elim (j.marshal m) [ none ↦ none | some b ↦ j.unmarshal b ]

module _ {P : Platform} where
  -- What messages come to without a wire: dispatch in their order on each as JSON carries it over,
  -- and the end of the connection behind the last one, or at the first that does not decode.
  unfoldable pub serve :
      JsonCodec Message → (ℕ → P.Time) → ℕ → List Message → Session P → Session P × List (Frame P)
  serve j clock n [] s = (disconnect s, [])
  serve j clock n (m ∷ ms) s = elim (carried_over j m) [
    | some k ↦ followed (dispatch (clock n) (request_of k) s) (serve j clock (suc n) ms)
    | none ↦ (disconnect s, [])
  ]

  followed_same :
      (r : Session P × List (Frame P)) (f g : Session P → Session P × List (Frame P))
      → ((s : Session P) → f s ≡ g s)
      → followed r f ≡ followed r g
  followed_same (s, fs) f g h = rw (h s) refl

  decoded_round :
      (j : JsonCodec Message) (clock : ℕ → P.Time) (n fuel : ℕ) (s : Session P) (rest : Bytes)
      (go : Session P → Session P × List (Frame P)) (o : Option Message)
      → ((t : Session P) → handle j clock (suc n) fuel rest t ≡ go t)
      → on_message
          (or_error bad_json o >>= λ k. ok (k, rest))
          (λ k rest.
            followed (dispatch (clock n) (request_of k) s) (handle j clock (suc n) fuel rest))
          s
        ≡ elim o [
          | some k ↦ followed (dispatch (clock n) (request_of k) s) go
          | none ↦ (disconnect s, [])
        ]
  decoded_round j clock n fuel s rest go none same = refl
  decoded_round j clock n fuel s rest go (some k) same =
      followed_same (dispatch (clock n) (request_of k) s) _ _ same

  read_round :
      (j : JsonCodec Message) (clock : ℕ → P.Time) (n fuel : ℕ) (s : Session P) (m : Message)
      (c rest y : Bytes) (go : Session P → Session P × List (Frame P))
      → j.marshal m ≡ some y
      → read_frame j (c ++ rest) ≡ (or_error bad_json (j.unmarshal y) >>= λ k. ok (k, rest))
      → ((t : Session P) → handle j clock (suc n) fuel rest t ≡ go t)
      → handle j clock n (suc fuel) (c ++ rest) s ≡ elim (carried_over j m) [
        | some k ↦ followed (dispatch (clock n) (request_of k) s) go
        | none ↦ (disconnect s, [])
      ]
  unfolding handle carried_over
  read_round j clock n fuel s m c rest y go f g same =
      rw (g, f) (decoded_round j clock n fuel s rest go (j.unmarshal y) same)

  -- The messages that a client writes are dispatched one by one in that order, each as JSON decodes
  -- what it has encoded for it, up to the first that does not decode; that, or what the stream ends
  -- with, an incomplete frame or nothing, ends the connection. The session and the answers are those
  -- of dispatch on each message, for any number of rounds above that of the messages.
  pub handle-serve :
      (j : JsonCodec Message) (clock : ℕ → P.Time) (n fuel : ℕ) (ms : List Message) (s : Session P)
      (b tail : Bytes) (x : FrameError)
      → write_frames j ms ≡ ok b
      → read_frame j tail ≡ err x
      → length ms < fuel
      → handle j clock n fuel (b ++ tail) s ≡ serve j clock n ms s
  unfolding handle serve write_frames
  handle-serve j clock n zero ms s b tail x w e l = absurd (omega (arith, l))
  handle-serve j clock n (suc fuel) [] s b tail x w e l =
      subst (λ b. handle j clock n (suc fuel) (b ++ tail) s ≡ (disconnect s, [])) (ok-injective w)
        (rw e refl)
  handle-serve j clock n (suc fuel) (m ∷ ms) s b tail x w e l =
      let (c, p, w2) = bind-eq-ok (write_frame j m) _ w in
      let (d, q, w3) = bind-eq-ok (write_frames j ms) _ w2 in
      let (y, f, g) = read_frame-write_frame j m c (d ++ tail) p in
      subst (λ b. handle j clock n (suc fuel) (b ++ tail) s ≡ serve j clock n (m ∷ ms) s)
        (ok-injective w3)
        (subst (λ b. handle j clock n (suc fuel) b s ≡ serve j clock n (m ∷ ms) s)
          (sym (append_assoc c d tail))
          (read_round j clock n fuel s m c (d ++ tail) y (serve j clock (suc n) ms) f g
            λ t. handle-serve j clock (suc n) fuel ms t d tail x q e (omega (arith, l))))
