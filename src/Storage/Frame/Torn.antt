-- ===== src/Storage/Frame/Torn.antt =====
-- On encodeRecord, ReadRecords and OpenWAL: the records that a log, whole or torn, reads back to.
use tsql.Base.{
  ℕ, suc, ◌+◌, ◌^◌, ◌≤◌, ◌<◌, ◌≡◌, refl, sym, ap, ◌∙◌, arith, String, Bool, true, false,
}
use tsql.Base.{Option, none, some, List, [], ◌∷◌, ◌++◌, length, length-append, ltb, ==_iff}
use tsql.Base.{if◌then◌else◌, Bool-cases, ◌⊎◌, inl, inr, ◌>>?◌, bind-eq-some, some-injective}
use tsql.Base.Int.{ℤ, IsInt64, residue64, signed64}
use tsql.Base.Bytes.{
  Bytes, le_bytes, of_le, read_full, of_le-le_bytes, length-le_bytes, read_full-append,
  read_full_longer,
}
use mathlib.Core.List.{append_assoc, append-nil}
use mathlib.Core.Path.{subst}
use tsql.Platform.{Platform}
use tsql.Schema.{Column}
use tsql.Storage.Table.{Row}
use tsql.Storage.Wal.{WalRecord, begin, put, delete, commit, create, drop}
use tsql.Storage.Frame.{
  Codec, max_payload, rec_type, rec_txn, row_place, payload_of, header, framed,
}
use tsql.Storage.Frame.{read_place, decode_record, frame_of, checked_frame, read_record}

-- What gob and crc32 promise: a value decodes from its encoding, and a checksum has 32 bits.
pub record IsFaithful {P : Platform} (g : Codec P) : Type 0 where
  pub row_back : (row : Row P) (b : Bytes) → g.encode_row row ≡ some b → g.decode_row b ≡ some row
  pub change_back :
      (c : Bool × String × List Column) (b : Bytes)
      → g.encode_change c ≡ some b
      → g.decode_change b ≡ some c
  pub crc_bound : (b : Bytes) → g.crc b < 2 ^ 32

signed64-residue64 : (a : ℤ) → IsInt64 a → signed64 (residue64 a) ≡ a
unfolding signed64 residue64
signed64-residue64 a h = ground arith

residue64_bound : (a : ℤ) → residue64 a < 2 ^ 64
unfolding residue64
residue64_bound a = ground arith

pub read_full_exact :
    (n : ℕ) (xs ys : Bytes) → length xs ≡ n → read_full n (xs ++ ys) ≡ some (xs, ys)
read_full_exact n xs ys h = rw (sym h) (read_full-append xs ys)

read_place-row_place :
    (id : ℕ) (rid : ℤ) (b : Bytes)
    → id < 2 ^ 32
    → IsInt64 rid
    → read_place (row_place id rid ++ b) ≡ some (id, rid, b)
read_place-row_place id rid b hi hr =
    rw (append_assoc (le_bytes 4 id) (le_bytes 8 (residue64 rid)) b) (
      rw
        (read_full_exact 4 (le_bytes 4 id) (le_bytes 8 (residue64 rid) ++ b) (length-le_bytes 4 id))
        (rw (read_full_exact 8 (le_bytes 8 (residue64 rid)) b (length-le_bytes 8 (residue64 rid))) (
          rw
            (
              of_le-le_bytes 4 id hi,
              of_le-le_bytes 8 (residue64 rid) (residue64_bound rid),
              signed64-residue64 rid hr,
            )
            refl)))

pub length-header : (type tx size : ℕ) → length (header type tx size) ≡ 13
length-header type tx size = ap suc (
    length-append (le_bytes 8 tx) (le_bytes 4 size)
    ∙ omega (arith, length-le_bytes 8 tx, length-le_bytes 4 size))

is_small : (n : ℕ) → n ≤ max_payload → ltb max_payload n ≡ false
is_small n h = ground arith

module _ {P : Platform} where
  -- The numbers of a record fit the fields of its frame, as those of uint32, uint64 and int64 do.
  abbrev pub IsFit : WalRecord P → Type 0
  IsFit (begin tx) = tx < 2 ^ 64
  IsFit (put tx id rid row) = (tx < 2 ^ 64) × (id < 2 ^ 32) × IsInt64 rid
  IsFit (delete tx id rid) = (tx < 2 ^ 64) × (id < 2 ^ 32) × IsInt64 rid
  IsFit (commit tx) = tx < 2 ^ 64
  IsFit (create tx name cols) = tx < 2 ^ 64
  IsFit (drop tx name) = tx < 2 ^ 64

  rec_txn_bound : (r : WalRecord P) → IsFit r → rec_txn r < 2 ^ 64
  rec_txn_bound (begin tx) h = h
  rec_txn_bound (put tx id rid row) h = h.0
  rec_txn_bound (delete tx id rid) h = h.0
  rec_txn_bound (commit tx) h = h
  rec_txn_bound (create tx name cols) h = h
  rec_txn_bound (drop tx name) h = h

  decode_record-payload_of :
      (g : Codec P) (r : WalRecord P) (b : Bytes)
      → IsFaithful g
      → IsFit r
      → payload_of g r ≡ some b
      → decode_record g (rec_type r) (rec_txn r) b ≡ some r
  unfolding payload_of decode_record
  decode_record-payload_of g (begin tx) b q h e = refl
  decode_record-payload_of g (put tx id rid row) b q h e =
      let (c, enc, same) = bind-eq-some (g.encode_row row) _ e in
      subst (λ b. decode_record g 2 tx b ≡ some (put tx id rid row)) (some-injective same)
        (rw (read_place-row_place id rid c h.1 h.2) (rw (q.row_back row c enc) refl))
  decode_record-payload_of g (delete tx id rid) b q h e =
      subst (λ b. decode_record g 3 tx b ≡ some (delete tx id rid))
        (append-nil (row_place id rid) ∙ some-injective e)
        (rw (read_place-row_place id rid [] h.1 h.2) refl)
  decode_record-payload_of g (commit tx) b q h e = refl
  decode_record-payload_of g (create tx name cols) b q h e =
      rw (q.change_back (true, name, cols) b e) refl
  decode_record-payload_of g (drop tx name) b q h e = rw (q.change_back (false, name, []) b e) refl

  frame_of-header :
      (g : Codec P) (r : WalRecord P) (payload : Bytes)
      → IsFit r
      → frame_of g (header (rec_type r) (rec_txn r) (length payload)) payload
        ≡ decode_record g (rec_type r) (rec_txn r) payload
  frame_of-header g r payload h =
      rw
        (read_full_exact 8 (le_bytes 8 (rec_txn r)) (le_bytes 4 (length payload))
          (length-le_bytes 8 (rec_txn r)))
        (rw (of_le-le_bytes 8 (rec_txn r) (rec_txn_bound r h)) refl)

  pub length-framed :
      (g : Codec P) (type tx : ℕ) (payload : Bytes)
      → length (framed g type tx payload) ≡ 13 + length payload + 4
  length-framed g type tx payload =
      let front = header type tx (length payload) ++ payload in
      omega (
        arith,
        length-append front (le_bytes 4 (g.crc front)),
        length-append (header type tx (length payload)) payload,
        length-header type tx (length payload),
        length-le_bytes 4 (g.crc front),
      )

  checked_frame-framed :
      (g : Codec P) (r : WalRecord P) (payload : Bytes)
      → IsFaithful g
      → IsFit r
      → payload_of g r ≡ some payload
      → let hdr = header (rec_type r) (rec_txn r) (length payload) in
        checked_frame g hdr payload (le_bytes 4 (g.crc (hdr ++ payload))) ≡ some r
  checked_frame-framed g r payload q h e =
      let hdr = header (rec_type r) (rec_txn r) (length payload) in
      rw (of_le-le_bytes 4 (g.crc (hdr ++ payload)) (q.crc_bound (hdr ++ payload))) (
        rw ((==_iff (g.crc (hdr ++ payload)) (g.crc (hdr ++ payload))).1 refl)
          (frame_of-header g r payload h ∙ decode_record-payload_of g r payload q h e))

  -- A frame at the front of a file reads back to its record, and the rest of the file is left.
  pub read_record-framed :
      (g : Codec P) (r : WalRecord P) (payload rest : Bytes)
      → IsFaithful g
      → IsFit r
      → payload_of g r ≡ some payload
      → length payload ≤ max_payload
      → read_record g (framed g (rec_type r) (rec_txn r) payload ++ rest)
        ≡ some (r, 13 + length payload + 4, rest)
  unfolding read_record
  read_record-framed g r payload rest q h e small =
      let size = length payload in
      let hdr = header (rec_type r) (rec_txn r) size in
      let sum = le_bytes 4 (g.crc (hdr ++ payload)) in
      rw (append_assoc (hdr ++ payload) sum rest ∙ append_assoc hdr payload (sum ++ rest)) (
        rw
          (read_full_exact 13 hdr (payload ++ (sum ++ rest))
            (length-header (rec_type r) (rec_txn r) size))
          (rw
            (read_full_exact 9 (rec_type r ∷ le_bytes 8 (rec_txn r)) (le_bytes 4 size)
              (ap suc (length-le_bytes 8 (rec_txn r))))
            (rw (of_le-le_bytes 4 size (omega (arith, small))) (
              rw (is_small size small) (
                rw (read_full-append payload (sum ++ rest)) (
                  rw (read_full_exact 4 sum rest (length-le_bytes 4 (g.crc (hdr ++ payload))))
                    (rw (checked_frame-framed g r payload q h e) refl)))))))

  pub read_record_longer :
      (g : Codec P) (xs ys rest : Bytes) (r : WalRecord P) (n : ℕ)
      → read_record g xs ≡ some (r, n, rest)
      → read_record g (xs ++ ys) ≡ some (r, n, rest ++ ys)
  unfolding read_record
  read_record_longer g xs ys rest r n h =
      let (hdr, e1, h1) = bind-eq-some (read_full 13 xs) _ h in
      let (front, e2, h2) = bind-eq-some (read_full 9 hdr.0) _ h1 in
      rw (read_full_longer 13 xs hdr.0 hdr.1 ys e1) (
        rw e2 (sized hdr.0 hdr.1 (of_le front.1) (Bool-cases (ltb max_payload (of_le front.1))) h2))
    where
      tail_of : Bytes → Bytes → ℕ → Option (WalRecord P × ℕ × Bytes)
      tail_of hdr file size = read_full size file >>? λ payload. read_full 4 payload.1 >>? λ sum.
          checked_frame g hdr payload.0 sum.0 >>? λ r. some (r, 13 + size + 4, sum.1)

      sized :
          (hdr file : Bytes) (size : ℕ)
          → (ltb max_payload size ≡ true) ⊎ (ltb max_payload size ≡ false)
          → (if ltb max_payload size then none else tail_of hdr file size) ≡ some (r, n, rest)
          → (if ltb max_payload size then none else tail_of hdr (file ++ ys) size)
            ≡ some (r, n, rest ++ ys)
      sized hdr file size (inl b) k = absurd (ground (arith, b))
      sized hdr file size (inr b) k =
          let k' = rw b at k in
          let (payload, p1, k1) = bind-eq-some (read_full size file) _ k' in
          let (sum, p2, k2) = bind-eq-some (read_full 4 payload.1) _ k1 in
          let (q, p3, k3) = bind-eq-some (checked_frame g hdr payload.0 sum.0) _ k2 in
          rw b (
            rw (read_full_longer size file payload.0 payload.1 ys p1) (
              rw (read_full_longer 4 payload.1 sum.0 sum.1 ys p2) (
                rw p3 (
                  ap (λ (t : WalRecord P × ℕ × Bytes). some (t.0, t.1, t.2 ++ ys))
                    (some-injective k3)))))
