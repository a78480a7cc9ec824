-- ===== src/Protocol.antt =====
-- internal/protocol/protocol.go: frames of JSON behind a length of four bytes.
use tsql.Base.{ℕ, ◌*◌, ◌^◌, ◌≤◌, ◌≡◌, refl, sym, ap, ◌∙◌, arith, false, Option, none, some}
use tsql.Base.{
  zero, suc, ◌/◌, ◌%◌, length-append, [], ◌∷◌, ◌++◌, length, ltb, if◌then◌else◌, Result, ok, err,
  ◌>>=◌,
}
use tsql.Base.{Bool-cases, inl, inr, bind-eq-ok, ok-injective}
use tsql.Base.Bytes.{Bytes, be_bytes, of_be_from, read_full, of_be_from-be_bytes, read_full-append}
use mathlib.Core.List.{append_assoc}
use mathlib.Core.Path.{subst}

-- encoding/json on the messages of the protocol.
pub record JsonCodec (M : Type 0) : Type 0 where
  pub marshal : M → Option Bytes
  pub unmarshal : Bytes → Option M

-- Errors of a frame: of JSON, of its size, and of a reader that ends.
pub data FrameError : Type 0 where
  bad_json too_large ended : FrameError

abbrev pub max_frame : ℕ
max_frame = 16 * 2 ^ 20

-- `io.ReadFull` and json.Unmarshal with the errors that ReadFrame returns.
abbrev pub or_error : {A : Type 0} → FrameError → Option A → Result FrameError A
or_error x none = err x
or_error x (some a) = ok a

is_within : (n : ℕ) → n ≤ max_frame → ltb max_frame n ≡ false
is_within n h = ground arith

within : (n : ℕ) → ltb max_frame n ≡ false → n ≤ max_frame
within n h = ground arith

-- The size test, and the length with the body.
abbrev pub sized_frame : Bytes → Result FrameError Bytes
sized_frame b = if ltb max_frame (length b) then err too_large else ok (be_bytes 4 (length b) ++ b)

sized :
    (c b : Bytes) → sized_frame c ≡ ok b → (length c ≤ max_frame) × (be_bytes 4 (length c) ++ c ≡ b)
sized c b h = elim (Bool-cases (ltb max_frame (length c))) [
  | inl q ↦ absurd (ground (arith, q, h))
  | inr q ↦ (within (length c) q, ok-injective (rw q at h))
]

length-be_bytes : (k n : ℕ) → length (be_bytes k n) ≡ k
unfolding be_bytes
length-be_bytes zero n = refl
length-be_bytes (suc k) n =
    omega (arith, length-be_bytes k (n / 256), length-append (be_bytes k (n / 256)) (n % 256 ∷ []))

marshalled : (o : Option Bytes) (c : Bytes) → or_error bad_json o ≡ ok c → o ≡ some c
marshalled none c h = cc
marshalled (some b) c h = cc

module _ {M : Type 0} where
  -- WriteFrame: the bytes that it writes
  unfoldable pub write_frame : JsonCodec M → M → Result FrameError Bytes
  write_frame j m = or_error bad_json (j.marshal m) >>= λ b. sized_frame b

  -- ReadFrame: the message and what follows it
  unfoldable pub read_frame : JsonCodec M → Bytes → Result FrameError (M × Bytes)
  read_frame j input = or_error ended (read_full 4 input) >>= λ hdr.
      let n = of_be_from 0 hdr.0 in
      if ltb max_frame n
      then err too_large
      else (or_error ended (read_full n hdr.1) >>= λ body.
          or_error bad_json (j.unmarshal body.0) >>= λ m. ok (m, body.1))

  -- What the body of a frame decodes to, before what follows the frame.
  abbrev decoded : Option M → Bytes → Result FrameError (M × Bytes)
  decoded o rest = or_error bad_json o >>= λ m. ok (m, rest)

  read_frame-body :
      (j : JsonCodec M) (b rest : Bytes)
      → length b ≤ max_frame
      → read_frame j ((be_bytes 4 (length b) ++ b) ++ rest) ≡ decoded (j.unmarshal b) rest
  unfolding read_frame
  read_frame-body j b rest l =
      let hdr = be_bytes 4 (length b) in
      let front : read_full 4 (hdr ++ (b ++ rest)) ≡ some (hdr, b ++ rest) =
        ap (λ k. read_full k (hdr ++ (b ++ rest))) (sym (length-be_bytes 4 (length b)))
        ∙ read_full-append hdr (b ++ rest) in
      rw (append_assoc hdr b rest) (
        rw front (
          rw (of_be_from-be_bytes 4 (length b) (omega (arith, l)))
            (rw (is_within (length b) l) (rw (read_full-append b rest) refl))))

  -- Of a message that WriteFrame writes, ReadFrame reads what JSON decodes from its encoding,
  -- wherever in the stream it stands, and the bytes behind it are left for the next call; where that
  -- does not decode, ReadFrame fails with the error of JSON.
  pub read_frame-write_frame :
      (j : JsonCodec M) (m : M) (b rest : Bytes)
      → write_frame j m ≡ ok b
      → (c : Bytes) × (j.marshal m ≡ some c)
        × (read_frame j (b ++ rest) ≡ (or_error bad_json (j.unmarshal c) >>= λ k. ok (k, rest)))
  unfolding write_frame
  read_frame-write_frame j m b rest h =
      let (c, e, k) = bind-eq-ok (or_error bad_json (j.marshal m)) _ h in
      let (small, f) = sized c b k in
      subst
        (λ b.
          (c : Bytes) × (j.marshal m ≡ some c)
          × (read_frame j (b ++ rest) ≡ decoded (j.unmarshal c) rest))
        f (c, marshalled (j.marshal m) c e, read_frame-body j c rest small)
