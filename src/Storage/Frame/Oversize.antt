-- ===== src/Storage/Frame/Oversize.antt =====
-- On maxPayload in internal/storage/wal.go: ReadRecords checks it, encodeRecord does not.
use tsql.Base.{ℕ, suc, ◌^◌, ◌<◌, ◌≡◌, refl, ap, ◌∙◌, arith, true, none, some, List, ◌∷◌, ◌++◌}
use tsql.Base.{length, ltb, All}
use tsql.Base.Bytes.{Bytes, le_bytes, of_le-le_bytes, length-le_bytes}
use mathlib.Core.List.{append_assoc}
use tsql.Platform.{Platform}
use tsql.Storage.Wal.{WalRecord}
use tsql.Storage.Frame.{
  Codec, max_payload, rec_type, rec_txn, payload_of, header, framed, encode_record,
}
use tsql.Storage.Frame.{read_record, open_wal, encode_all}
use tsql.Storage.Frame.Torn.{IsFaithful, read_full_exact, length-header}
use tsql.Storage.Frame.Prefix.{IsLoggable, open_wal_stops}

is_large : (n : ℕ) → max_payload < n → ltb max_payload n ≡ true
is_large n h = ground arith

module _ {P : Platform} where
  read_record-framed_oversize :
      (g : Codec P) (type tx : ℕ) (payload rest : Bytes)
      → max_payload < length payload
      → length payload < 2 ^ 32
      → read_record g (framed g type tx payload ++ rest) ≡ none
  unfolding read_record
  read_record-framed_oversize g type tx payload rest large fits =
      let size = length payload in
      let hdr = header type tx size in
      let sum = le_bytes 4 (g.crc (hdr ++ payload)) in
      rw (append_assoc (hdr ++ payload) sum rest ∙ append_assoc hdr payload (sum ++ rest)) (
        rw (read_full_exact 13 hdr (payload ++ (sum ++ rest)) (length-header type tx size)) (
          rw
            (read_full_exact 9 (type ∷ le_bytes 8 tx) (le_bytes 4 size)
              (ap suc (length-le_bytes 8 tx)))
            (rw (of_le-le_bytes 4 size fits) (rw (is_large size large) refl))))

  -- A record whose payload is longer than 64 MiB is encoded all the same, and OpenWAL cuts the log
  -- in front of it: that record is lost and so is every record behind it, committed or not. The
  -- length fits its field, the records before it fit and are not too long, and the codec is faithful.
  pub open_wal_oversize :
      (g : Codec P) (rs : List (WalRecord P)) (r : WalRecord P) (whole payload rest : Bytes)
      → IsFaithful g
      → All (IsLoggable g) rs
      → encode_all g rs ≡ some whole
      → payload_of g r ≡ some payload
      → max_payload < length payload
      → length payload < 2 ^ 32
      → (b : Bytes) × (encode_record g r ≡ some b)
        × (open_wal g (whole ++ (b ++ rest)) ≡ (whole, rs))
  unfolding encode_record
  open_wal_oversize g rs r whole payload rest q a e f large fits = (
    framed g (rec_type r) (rec_txn r) payload,
    rw f refl,
    open_wal_stops g rs whole (framed g (rec_type r) (rec_txn r) payload ++ rest) q a e
        (read_record-framed_oversize g (rec_type r) (rec_txn r) payload rest large fits),
  )
