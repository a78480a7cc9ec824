-- ===== src/Storage/Frame/Ends.antt =====
-- On the loop of ReadRecords: that it comes to an end on every file.
use tsql.Base.{ℕ, zero, suc, ◌+◌, ◌≤◌, ◌<◌, ◌≡◌, refl, ap, arith, true, false, Option, none, some}
use tsql.Base.{[], ◌∷◌, length, ltb, if◌then◌else◌, Option-cases, Bool-cases, ◌⊎◌, inl, inr}
use tsql.Base.{◌>>?◌, bind-eq-some, some-injective}
use tsql.Base.Bytes.{Bytes, of_le, read_full}
use tsql.Platform.{Platform}
use tsql.Storage.Wal.{WalRecord}
use tsql.Storage.Frame.{Codec, max_payload, checked_frame, read_record, read_frames, read_records}

read_full-length :
    (n : ℕ) (xs a b : Bytes) → read_full n xs ≡ some (a, b) → length xs ≡ n + length b
unfolding read_full
read_full-length zero xs a b h =
    omega (arith, ap (λ (p : Bytes × Bytes). length p.1) (some-injective h))
read_full-length (suc n) [] a b h = cc
read_full-length (suc n) (x ∷ xs) a b h = elim (Option-cases (read_full n xs)) [
  | inl e ↦ absurd (ground (arith, e))
  | inr ((c, d), e) ↦
      let tail : d ≡ b =
        ap (λ (p : Bytes × Bytes). p.1) (some-injective (rw (e, read_full) at h)) in
      omega (arith, read_full-length n xs c d e, ap length tail)
]

module _ {P : Platform} where
  read_record-shorter :
      (g : Codec P) (file rest : Bytes) (r : WalRecord P) (n : ℕ)
      → read_record g file ≡ some (r, n, rest)
      → length rest < length file
  unfolding read_record
  read_record-shorter g file rest r n h =
      let (hdr, e1, h1) = bind-eq-some (read_full 13 file) _ h in
      let (front, e2, h2) = bind-eq-some (read_full 9 hdr.0) _ h1 in
      sized hdr.0 hdr.1 (of_le front.1) (Bool-cases (ltb max_payload (of_le front.1)))
        (read_full-length 13 file hdr.0 hdr.1 e1) h2
    where
      tail_of : Bytes → Bytes → ℕ → Option (WalRecord P × ℕ × Bytes)
      tail_of hdr file size = read_full size file >>? λ payload. read_full 4 payload.1 >>? λ sum.
          checked_frame g hdr payload.0 sum.0 >>? λ r. some (r, 13 + size + 4, sum.1)

      sized :
          (hdr left : Bytes) (size : ℕ)
          → (ltb max_payload size ≡ true) ⊎ (ltb max_payload size ≡ false)
          → length file ≡ 13 + length left
          → (if ltb max_payload size then none else tail_of hdr left size) ≡ some (r, n, rest)
          → length rest < length file
      sized hdr left size (inl b) l k = absurd (ground (arith, b))
      sized hdr left size (inr b) l k =
          let (payload, p1, k1) = bind-eq-some (read_full size left) _ (rw b at k) in
          let (sum, p2, k2) = bind-eq-some (read_full 4 payload.1) _ k1 in
          let (q, p3, k3) = bind-eq-some (checked_frame g hdr payload.0 sum.0) _ k2 in
          let same = ap (λ (t : WalRecord P × ℕ × Bytes). length t.2) (some-injective k3) in
          omega (
            arith,
            l,
            read_full-length size left payload.0 payload.1 p1,
            read_full-length 4 payload.1 sum.0 sum.1 p2,
            same,
          )

  enough :
      (g : Codec P) (m n : ℕ) (file : Bytes)
      → length file ≤ m
      → length file ≤ n
      → read_frames g m file ≡ read_frames g n file
  unfolding read_frames
  enough g zero zero file k l = refl
  enough g zero (suc n) file k l = elim (Option-cases (read_record g file)) [
    | inl e ↦ rw (e, read_frames) refl
    | inr ((r, s, rest), e) ↦ absurd (omega (arith, k, read_record-shorter g file rest r s e))
  ]
  enough g (suc m) zero file k l = elim (Option-cases (read_record g file)) [
    | inl e ↦ rw (e, read_frames) refl
    | inr ((r, s, rest), e) ↦ absurd (omega (arith, l, read_record-shorter g file rest r s e))
  ]
  enough g (suc m) (suc n) file k l = elim (Option-cases (read_record g file)) [
    | inl e ↦ rw (e, read_frames) refl
    | inr ((r, s, rest), e) ↦
        let shorter = read_record-shorter g file rest r s e in
        rw (e, read_frames)
          (rw (enough g m n rest (omega (arith, k, shorter)) (omega (arith, l, shorter))) refl)
  ]

  -- The loop of ReadRecords ends on every file, damaged or not: once it has as many rounds as the
  -- file has bytes, more rounds read nothing more.
  pub read_frames-read_records :
      (g : Codec P) (fuel : ℕ) (file : Bytes)
      → length file ≤ fuel
      → read_frames g fuel file ≡ read_records g file
  unfolding read_records
  read_frames-read_records g fuel file l = enough g fuel (length file) file l (omega arith)
