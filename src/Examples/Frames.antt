-- ===== src/Examples/Frames.antt =====
-- The theorems on the frames of the log and of the wire at concrete inputs.
use tsql.Base.{
  ℕ, zero, suc, ◌+◌, ◌%◌, ◌^◌, ◌≡◌, refl, arith, Option, none, some, List, [], ◌∷◌, ◌++◌,
}
use tsql.Base.{length, length-append, All, ok, ◌>>=◌}
use tsql.Base.Bytes.{Bytes, le_bytes, of_le, be_bytes, read_full}
use tsql.Base.Int.{pos, residue64}
use tsql.Base.{some-injective, ap, sym, ◌∙◌}
use tsql.Storage.Table.{Row}
use tsql.Storage.Wal.{WalRecord, begin, put}
use tsql.Storage.Frame.{
  Codec, max_payload, row_place, payload_of, encode_record, decode_record, read_record, read_frames,
}
use tsql.Storage.Frame.{read_records, open_wal, encode_all}
use tsql.Storage.Frame.Torn.{IsFaithful}
use tsql.Storage.Frame.Prefix.{IsLoggable}
use tsql.Storage.Frame.Cut.{IsCut, open_wal-encode_all, open_wal_again}
use tsql.Storage.Frame.Oversize.{open_wal_oversize}
use tsql.Storage.Frame.Ends.{read_frames-read_records}
use tsql.Protocol.{JsonCodec, bad_json, or_error, write_frame, read_frame, read_frame-write_frame}
use tsql.Examples.Host.{host}

-- A codec of one row, and a sum for a checksum.
abbrev encode_one : Row host → Option Bytes
encode_one [] = some (9 ∷ [])
encode_one (v ∷ vs) = none

abbrev codec : Codec host
codec = record {
  encode_row = encode_one;
  decode_row = λ b. some [];
  encode_change = λ c. none;
  decode_change = λ b. none;
  crc = λ b. of_le b % 2 ^ 32;
}

encode_one-back :
    (row : Row host) (b : Bytes) → encode_one row ≡ some b → codec.decode_row b ≡ some row
encode_one-back [] b h = refl
encode_one-back (v ∷ vs) b h = cc

codec-IsFaithful : IsFaithful codec
codec-IsFaithful = record {
  row_back = encode_one-back;
  change_back = λ c b h. cc;
  crc_bound = λ b. omega arith;
}

abbrev log : List (WalRecord host)
log = begin 1 ∷ put 1 2 (pos 3) [] ∷ []

abbrev more : List (WalRecord host)
more = begin 2 ∷ []

-- The frame of `begin 1`, and the first bytes of the frame behind it.
abbrev begin_bytes : Bytes
begin_bytes = 1 ∷ 1 ∷ 0 ∷ 0 ∷ 0 ∷ 0 ∷ 0 ∷ 0 ∷ 0 ∷ 0 ∷ 0 ∷ 0 ∷ 0 ∷ 1 ∷ 1 ∷ 0 ∷ 0 ∷ []

abbrev torn_bytes : Bytes
torn_bytes = 2 ∷ 1 ∷ 0 ∷ 0 ∷ []

abbrev lost_bytes : Bytes
lost_bytes =
    0 ∷ 0 ∷ 0 ∷ 0 ∷ 0 ∷ 13 ∷ 0 ∷ 0 ∷ 0 ∷ 2 ∷ 0 ∷ 0 ∷ 0 ∷ 3 ∷ 0 ∷ 0 ∷ 0 ∷ 0 ∷ 0 ∷ 0 ∷ 0 ∷ 9 ∷ 2 ∷ 1
    ∷ 0 ∷ 0 ∷ []

abbrev more_bytes : Bytes
more_bytes = 1 ∷ 2 ∷ 0 ∷ 0 ∷ 0 ∷ 0 ∷ 0 ∷ 0 ∷ 0 ∷ 0 ∷ 0 ∷ 0 ∷ 0 ∷ 1 ∷ 2 ∷ 0 ∷ 0 ∷ []

log-encoded : encode_all codec log ≡ some ((begin_bytes ++ torn_bytes) ++ lost_bytes)
unfolding encode_all encode_record payload_of le_bytes of_le residue64
log-encoded = refl

place_size : length (row_place 2 (pos 3)) ≡ 12
unfolding le_bytes
place_size = refl

put_size : length (row_place 2 (pos 3) ++ (9 ∷ [])) ≡ 13
unfolding le_bytes
put_size = refl

log-IsLoggable : All (IsLoggable codec) log
unfolding payload_of
log-IsLoggable = (
  (omega arith, λ b h. omega (arith, ap length (some-injective h))),
  (((omega arith, omega arith, (omega arith)), λ b h. omega (arith, put_length b h)), tt),
)
  where
    put_length : (b : Bytes) → payload_of codec (put 1 2 (pos 3) []) ≡ some b → length b ≡ 13
    put_length b h = ap length (sym (some-injective h)) ∙ put_size

more-IsLoggable : All (IsLoggable codec) more
unfolding payload_of
more-IsLoggable = ((omega arith, λ b h. omega (arith, ap length (some-injective h))), tt)

more-encoded : encode_all codec more ≡ some more_bytes
unfolding encode_all encode_record payload_of le_bytes of_le
more-encoded = refl

open_wal-encode_all_example :
    (lost : List (WalRecord host)) × (torn : Bytes) × (log
      ≡ (open_wal codec (begin_bytes ++ torn_bytes)).1 ++ lost)
    × (encode_all codec (open_wal codec (begin_bytes ++ torn_bytes)).1
        ≡ some (open_wal codec (begin_bytes ++ torn_bytes)).0)
    × (begin_bytes ++ torn_bytes ≡ (open_wal codec (begin_bytes ++ torn_bytes)).0 ++ torn)
    × IsCut codec lost torn
open_wal-encode_all_example =
    open_wal-encode_all codec log (begin_bytes ++ torn_bytes) lost_bytes codec-IsFaithful
      log-IsLoggable log-encoded

open_wal_again_example :
    open_wal codec ((open_wal codec (begin_bytes ++ torn_bytes)).0 ++ more_bytes) ≡ (
      (open_wal codec (begin_bytes ++ torn_bytes)).0 ++ more_bytes,
      (open_wal codec (begin_bytes ++ torn_bytes)).1 ++ more,
    )
open_wal_again_example =
    open_wal_again codec log more (begin_bytes ++ torn_bytes) lost_bytes more_bytes codec-IsFaithful
      log-IsLoggable more-IsLoggable log-encoded more-encoded

-- What OpenWAL finds in the torn log: its first record.
open_wal_torn : open_wal codec (begin_bytes ++ torn_bytes) ≡ (begin_bytes, begin 1 ∷ [])
unfolding open_wal read_records read_frames read_record read_full decode_record of_le
open_wal_torn = refl

read_frames-read_records_example :
    read_frames codec 100 (begin_bytes ++ torn_bytes)
    ≡ read_records codec (begin_bytes ++ torn_bytes)
read_frames-read_records_example =
    read_frames-read_records codec 100 (begin_bytes ++ torn_bytes) (omega arith)

-- JSON on messages that are numbers below 256.
abbrev digits : JsonCodec ℕ
digits = record { marshal = marshal_digit; unmarshal = unmarshal_digit }
  where
    marshal_digit : ℕ → Option Bytes
    marshal_digit n = some (n ∷ [])

    unmarshal_digit : Bytes → Option ℕ
    unmarshal_digit [] = none
    unmarshal_digit (b ∷ bs) = some b

seven_written : write_frame digits 7 ≡ ok (0 ∷ 0 ∷ 0 ∷ 1 ∷ 7 ∷ [])
unfolding write_frame be_bytes
seven_written = refl

read_frame-write_frame_example :
    (c : Bytes) × (digits.marshal 7 ≡ some c)
    × (read_frame digits ((0 ∷ 0 ∷ 0 ∷ 1 ∷ 7 ∷ []) ++ (0 ∷ []))
        ≡ (or_error bad_json (digits.unmarshal c) >>= λ k. ok (k, 0 ∷ [])))
read_frame-write_frame_example =
    read_frame-write_frame digits 7 (0 ∷ 0 ∷ 0 ∷ 1 ∷ 7 ∷ []) (0 ∷ []) seven_written

zeros : ℕ → Bytes
zeros zero = []
zeros (suc n) = 0 ∷ zeros n

length-zeros : (n : ℕ) → length (zeros n) ≡ n
unfolding zeros
length-zeros zero = refl
length-zeros (suc n) = ap suc (length-zeros n)

-- A row of one byte more than a payload may have.
abbrev encode_large : Row host → Option Bytes
encode_large [] = some (zeros (suc max_payload))
encode_large (v ∷ vs) = none

abbrev large_codec : Codec host
large_codec = record codec { encode_row = encode_large }

encode_large-back :
    (row : Row host) (b : Bytes) → encode_large row ≡ some b → codec.decode_row b ≡ some row
encode_large-back [] b h = refl
encode_large-back (v ∷ vs) b h = cc

large-IsFaithful : IsFaithful large_codec
large-IsFaithful = record {
  row_back = encode_large-back;
  change_back = λ c b h. cc;
  crc_bound = λ b. omega arith;
}

abbrev large_payload : Bytes
large_payload = row_place 2 (pos 3) ++ zeros (suc max_payload)

length-large_payload : length large_payload ≡ 12 + suc max_payload
length-large_payload =
    length-append (row_place 2 (pos 3)) (zeros (suc max_payload))
    ∙ omega (arith, place_size, length-zeros (suc max_payload))

large_given : payload_of large_codec (put 1 2 (pos 3) []) ≡ some large_payload
unfolding payload_of
large_given = refl

nothing_encoded : encode_all large_codec [] ≡ some []
unfolding encode_all
nothing_encoded = refl

open_wal_oversize_example :
    (b : Bytes) × (encode_record large_codec (put 1 2 (pos 3) []) ≡ some b)
    × (open_wal large_codec ([] ++ (b ++ more_bytes)) ≡ ([], []))
open_wal_oversize_example =
    open_wal_oversize large_codec [] (put 1 2 (pos 3) []) [] large_payload more_bytes
      large-IsFaithful tt nothing_encoded large_given (omega (arith, length-large_payload))
      (omega (arith, length-large_payload))
