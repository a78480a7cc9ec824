-- ===== src/Storage/Frame/Prefix.antt =====
-- On ReadRecords: the whole frames at the front of a file, and where the reading stops.
use tsql.Base.{
  ℕ, zero, suc, ◌+◌, ◌≤◌, ◌≡◌, refl, sym, ap, ◌∙◌, arith, none, some, List, [], ◌∷◌, ◌++◌,
}
use tsql.Base.{length, length-append, take, All, bind-eq-some, some-injective}
use tsql.Base.Bytes.{Bytes, read_full}
use mathlib.Core.List.{append_assoc, append-nil}
use mathlib.Core.Path.{subst}
use tsql.Platform.{Platform}
use tsql.Storage.Wal.{WalRecord}
use tsql.Storage.Frame.{
  Codec, max_payload, rec_type, rec_txn, payload_of, framed, encode_record, encode_all,
}
use tsql.Storage.Frame.{read_record, read_frames, read_records, open_wal}
use tsql.Storage.Frame.Torn.{IsFaithful, IsFit, read_record-framed, length-framed}

pub take_front : (xs ys : Bytes) → take (length xs) (xs ++ ys) ≡ xs
take_front [] ys = refl
take_front (x ∷ xs) ys = ap (◌∷◌ x) (take_front xs ys)

pub suc_of : (n : ℕ) → 1 ≤ n → (m : ℕ) × (n ≡ suc m)
suc_of zero h = absurd (omega (arith, h))
suc_of (suc m) h = (m, refl)

module _ {P : Platform} where
  -- A record that the log can hold: its numbers fit and its payload is not too long.
  abbrev pub IsLoggable : Codec P → WalRecord P → Type 0
  IsLoggable g r = IsFit r × ((b : Bytes) → payload_of g r ≡ some b → length b ≤ max_payload)

  pub encode_record-framed :
      (g : Codec P) (r : WalRecord P) (b : Bytes)
      → encode_record g r ≡ some b
      → (payload : Bytes) × (payload_of g r ≡ some payload)
        × (framed g (rec_type r) (rec_txn r) payload ≡ b)
  unfolding encode_record
  encode_record-framed g r b h =
      let (payload, e, f) = bind-eq-some (payload_of g r) _ h in (payload, e, some-injective f)

  pub read_record-encode_record :
      (g : Codec P) (r : WalRecord P) (b rest : Bytes)
      → IsFaithful g
      → IsLoggable g r
      → encode_record g r ≡ some b
      → (17 ≤ length b) × (read_record g (b ++ rest) ≡ some (r, length b, rest))
  read_record-encode_record g r b rest q h e =
      let (payload, p, f) = encode_record-framed g r b e in
      let n = length-framed g (rec_type r) (rec_txn r) payload in
      subst (λ b. (17 ≤ length b) × (read_record g (b ++ rest) ≡ some (r, length b, rest))) f
        (
          omega (arith, n),
          read_record-framed g r payload rest q h.0 p (h.1 payload p)
              ∙ ap (λ (k : ℕ). some (r, k, rest)) (sym n),
        )

  pub read_record-nil : (g : Codec P) → read_record g [] ≡ none
  unfolding read_record read_full
  read_record-nil g = refl

  read_frames-none :
      (g : Codec P) (fuel : ℕ) (file : Bytes)
      → read_record g file ≡ none
      → read_frames g fuel file ≡ ([], 0)
  unfolding read_frames
  read_frames-none g zero file h = refl
  read_frames-none g (suc fuel) file h = rw (h, read_frames) refl

  -- Where one frame is read, the frames behind it follow.
  pub read_frames_step :
      (g : Codec P) (fuel n : ℕ) (r : WalRecord P) (file us : Bytes)
      → read_record g file ≡ some (r, n, us)
      → read_frames g (suc fuel) file
        ≡ (r ∷ (read_frames g fuel us).0, n + (read_frames g fuel us).1)
  unfolding read_frames
  read_frames_step g fuel n r file us h = rw (h, read_frames) refl

  read_frames_stops :
      (g : Codec P) (fuel : ℕ) (rs : List (WalRecord P)) (whole tail : Bytes)
      → IsFaithful g
      → All (IsLoggable g) rs
      → encode_all g rs ≡ some whole
      → read_record g tail ≡ none
      → length whole ≤ fuel
      → read_frames g fuel (whole ++ tail) ≡ (rs, length whole)
  unfolding encode_all
  read_frames_stops g fuel [] whole tail q a e h l =
      subst (λ w. read_frames g fuel (w ++ tail) ≡ ([], length w)) (some-injective e)
        (read_frames-none g fuel tail h)
  read_frames_stops g fuel (r ∷ rs) whole tail q a e h l =
      let (b, e1, h1) = bind-eq-some (encode_record g r) _ e in
      let (c, e2, h2) = bind-eq-some (encode_all g rs) _ h1 in
      let f = some-injective h2 in
      let step = read_record-encode_record g r b (c ++ tail) q a.0 e1 in
      let long = length-append b c in
      let (k, m) = suc_of fuel (omega (arith, long, ap length f, step.0, l)) in
      let n : length c ≤ k = omega (arith, long, ap length f, step.0, l, m) in
      subst (λ w. read_frames g fuel (w ++ tail) ≡ (r ∷ rs, length w)) f
        (rw
          (
            m,
            append_assoc b c tail,
            read_frames_step g k (length b) r (b ++ (c ++ tail)) (c ++ tail) step.1,
            read_frames_stops g k rs c tail q a.1 e2 h n,
            long,
          )
          refl)

  -- OpenWAL keeps the whole frames at the front of a file whose rest reads as nothing.
  pub open_wal_stops :
      (g : Codec P) (rs : List (WalRecord P)) (whole tail : Bytes)
      → IsFaithful g
      → All (IsLoggable g) rs
      → encode_all g rs ≡ some whole
      → read_record g tail ≡ none
      → open_wal g (whole ++ tail) ≡ (whole, rs)
  unfolding open_wal read_records
  open_wal_stops g rs whole tail q a e h =
      rw
        (
          read_frames_stops g (length (whole ++ tail)) rs whole tail q a e h
              (omega (arith, length-append whole tail)),
          take_front whole tail,
        )
        refl

  pub open_wal_whole :
      (g : Codec P) (rs : List (WalRecord P)) (file : Bytes)
      → IsFaithful g
      → All (IsLoggable g) rs
      → encode_all g rs ≡ some file
      → open_wal g file ≡ (file, rs)
  open_wal_whole g rs file q a e =
      subst (λ w. open_wal g w ≡ (file, rs)) (append-nil file)
        (open_wal_stops g rs file [] q a e (read_record-nil g))
