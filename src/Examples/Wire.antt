-- ===== src/Examples/Wire.antt =====
-- A codec of the server's frames for the examples: results cannot be encoded.
use tsql.Base.{refl, Bool, Option, none, some, [], ◌∷◌}
use tsql.Base.Bytes.{Bytes, be_bytes}
use tsql.Protocol.{JsonCodec, write_frame}
use tsql.Server.{
  Frame, result_frame, ok_frame, error_frame, ready_frame, tables_frame, databases_frame,
  describe_frame, panicked,
}
use tsql.Server.Replies.{IsSendable}
use tsql.Examples.Host.{host}

abbrev encode_frame : Frame host → Option Bytes
encode_frame (result_frame columns rows) = none
encode_frame (ok_frame n) = some (1 ∷ [])
encode_frame (error_frame code) = some (2 ∷ [])
encode_frame (ready_frame b) = some (3 ∷ [])
encode_frame (tables_frame names) = some (4 ∷ [])
encode_frame (databases_frame names) = some (5 ∷ [])
encode_frame (describe_frame name rows) = some (6 ∷ [])
encode_frame panicked = none

abbrev pub small_codec : JsonCodec (Frame host)
small_codec = record { marshal = encode_frame; unmarshal = λ b. none }

pub ready_sent : (b : Bool) → IsSendable small_codec (ready_frame b)
unfolding write_frame be_bytes
ready_sent b = (0 ∷ 0 ∷ 0 ∷ 1 ∷ 3 ∷ [], refl)
