-- ===== src/Storage/Frame.antt =====
-- The bytes of the log in internal/storage/wal.go: encodeRecord, decodeRecord, ReadRecords, OpenWAL.
pub mod Torn
pub mod Prefix
pub mod Cut
pub mod Oversize
pub mod Ends
use tsql.Base.{ℕ, zero, suc, ◌+◌, ◌*◌, ◌^◌, String, Bool, true, false, not, Option, none, some}
use tsql.Base.{List, [], ◌∷◌, ◌++◌, length, take, ltb, ◌==◌, if◌then◌else◌, ◌>>?◌}
use tsql.Base.Int.{ℤ, residue64, signed64}
use tsql.Base.Bytes.{Bytes, le_bytes, of_le, read_full}
use tsql.Platform.{Platform}
use tsql.Schema.{Column}
use tsql.Storage.Table.{Row}
use tsql.Storage.Wal.{WalRecord, begin, put, delete, commit, create, drop}

-- gob and crc32, with what the log relies on: a value decodes from what it was encoded to, and a
-- checksum has 32 bits.
pub record Codec (P : Platform) : Type 0 where
  pub encode_row : Row P → Option Bytes
  pub decode_row : Bytes → Option (Row P)
  -- SchemaChange: Create, Name and Cols
  pub encode_change : Bool × String × List Column → Option Bytes
  pub decode_change : Bytes → Option (Bool × String × List Column)
  pub crc : Bytes → ℕ

abbrev pub max_payload : ℕ
max_payload = 64 * 2 ^ 20

-- The table's id and the row's, of a put or a delete.
abbrev pub row_place : ℕ → ℤ → Bytes
row_place id rid = le_bytes 4 id ++ le_bytes 8 (residue64 rid)

abbrev pub header : ℕ → ℕ → ℕ → Bytes
header type tx size = type ∷ le_bytes 8 tx ++ le_bytes 4 size

-- The table's id, the row's and the bytes behind them: a payload of at least 12 bytes.
abbrev pub read_place : Bytes → Option (ℕ × ℤ × Bytes)
read_place payload = read_full 4 payload >>? λ a.
    read_full 8 a.1 >>? λ b. some (of_le a.0, signed64 (of_le b.0), b.1)

module _ {P : Platform} where
  abbrev pub rec_type : WalRecord P → ℕ
  rec_type (begin tx) = 1
  rec_type (put tx id rid row) = 2
  rec_type (delete tx id rid) = 3
  rec_type (commit tx) = 4
  rec_type (create tx name cols) = 5
  rec_type (drop tx name) = 6

  abbrev pub rec_txn : WalRecord P → ℕ
  rec_txn (begin tx) = tx
  rec_txn (put tx id rid row) = tx
  rec_txn (delete tx id rid) = tx
  rec_txn (commit tx) = tx
  rec_txn (create tx name cols) = tx
  rec_txn (drop tx name) = tx

  -- The payload that encodeRecord makes; a DDL record is always given with its change.
  unfoldable pub payload_of : Codec P → WalRecord P → Option Bytes
  payload_of g (begin tx) = some []
  payload_of g (put tx id rid row) = g.encode_row row >>? λ b. some (row_place id rid ++ b)
  payload_of g (delete tx id rid) = some (row_place id rid)
  payload_of g (commit tx) = some []
  payload_of g (create tx name cols) = g.encode_change (true, name, cols)
  payload_of g (drop tx name) = g.encode_change (false, name, [])

  -- The frame around a payload.
  abbrev pub framed : Codec P → ℕ → ℕ → Bytes → Bytes
  framed g type tx payload =
      let front = header type tx (length payload) ++ payload in front ++ le_bytes 4 (g.crc front)

  unfoldable pub encode_record : Codec P → WalRecord P → Option Bytes
  encode_record g r = payload_of g r >>? λ payload. some (framed g (rec_type r) (rec_txn r) payload)

  unfoldable pub decode_record : Codec P → ℕ → ℕ → Bytes → Option (WalRecord P)
  decode_record g type tx payload =
      if type == 1
      then some (begin tx)
      else if type == 2
      then (read_place payload >>? λ p. g.decode_row p.2 >>? λ row. some (put tx p.0 p.1 row))
      else if type == 3
      then (read_place payload >>? λ p. some (delete tx p.0 p.1))
      else if type == 4
      then some (commit tx)
      else if type == 5
      then (g.decode_change payload >>? λ c. some (create tx c.1 c.2))
      else if type == 6
      then (g.decode_change payload >>? λ c. some (drop tx c.1))
      else none

  abbrev pub frame_of : Codec P → Bytes → Bytes → Option (WalRecord P)
  frame_of g [] payload = none
  frame_of g (type ∷ rest) payload =
      read_full 8 rest >>? λ a. decode_record g type (of_le a.0) payload

  abbrev pub checked_frame : Codec P → Bytes → Bytes → Bytes → Option (WalRecord P)
  checked_frame g hdr payload sum =
      if g.crc (hdr ++ payload) == of_le sum then frame_of g hdr payload else none

  -- One round of ReadRecords: the record, the size of its frame and the rest of the file.
  unfoldable pub read_record : Codec P → Bytes → Option (WalRecord P × ℕ × Bytes)
  read_record g file = read_full 13 file >>? λ hdr. read_full 9 hdr.0 >>? λ front.
      let size = of_le front.1 in
      if ltb max_payload size
      then none
      else (read_full size hdr.1 >>? λ payload. read_full 4 payload.1 >>? λ sum.
          checked_frame g hdr.0 payload.0 sum.0 >>? λ r. some (r, 13 + size + 4, sum.1))

  -- The loop of ReadRecords, with the records and the offset of the first byte that it did not
  -- take; a round takes at least one byte, so the file's length is fuel enough.
  unfoldable pub read_frames : Codec P → ℕ → Bytes → List (WalRecord P) × ℕ
  read_frames g zero file = ([], 0)
  read_frames g (suc fuel) file = elim (read_record g file) [
    | none ↦ ([], 0)
    | some (r, size, rest) ↦ let (rs, off) = read_frames g fuel rest in (r ∷ rs, size + off)
  ]

  unfoldable pub read_records : Codec P → Bytes → List (WalRecord P) × ℕ
  read_records g file = read_frames g (length file) file

  -- OpenWAL: the file cut off behind the last whole record, and the records.
  unfoldable pub open_wal : Codec P → Bytes → Bytes × List (WalRecord P)
  open_wal g file = let (rs, off) = read_records g file in (take off file, rs)

  -- The file that Append has written, record by record.
  unfoldable pub encode_all : Codec P → List (WalRecord P) → Option Bytes
  encode_all g [] = some []
  encode_all g (r ∷ rs) = encode_record g r >>? λ b. encode_all g rs >>? λ bs. some (b ++ bs)
