-- ===== src/Storage/Frame/Cut.antt =====
-- On OpenWAL: what a crash in the middle of a write leaves of the log.
use tsql.Base.{
  ℕ, zero, suc, ◌+◌, ◌≤◌, ◌≡◌, refl, sym, ap, ◌∙◌, arith, none, some, List, [], ◌∷◌, ◌++◌,
}
use tsql.Base.{
  length, length-append, take, All, All-append, Option-cases, ◌⊎◌, inl, inr, bind-eq-some,
  some-injective,
}
use tsql.Base.Bytes.{Bytes}
use mathlib.Core.List.{append_assoc, append-nil}
use mathlib.Core.Path.{subst}
use tsql.Platform.{Platform}
use tsql.Storage.Wal.{WalRecord}
use tsql.Storage.Frame.{Codec, encode_record, encode_all}
use tsql.Storage.Frame.{read_record, read_frames, read_records, open_wal}
use tsql.Storage.Frame.Torn.{IsFaithful, read_record_longer}
use tsql.Storage.Frame.Prefix.{
  IsLoggable, read_record-encode_record, read_record-nil, open_wal_whole, take_front, suc_of,
}

-- Two ways to cut one list: the first cut lies behind the second, or not.
append_split :
    (xs ys zs ws : Bytes)
    → xs ++ ys ≡ zs ++ ws
    → ((u : ℕ) × (us : Bytes) × (xs ≡ zs ++ u ∷ us))
      ⊎ ((us : Bytes) × (zs ≡ xs ++ us) × (ys ≡ us ++ ws))
append_split [] ys zs ws h = inr (zs, refl, h)
append_split (x ∷ xs) ys [] ws h = inl (x, xs, refl)
append_split (x ∷ xs) ys (z ∷ zs) ws h = elim (append_split xs ys zs ws cc) [
  | inl (u, us, e) ↦ inl (u, us, cc)
  | inr (us, e, f) ↦ inr (us, cc, f)
]

not_nil : (xs : Bytes) (u : ℕ) (us : Bytes) → xs ++ u ∷ us ≡ [] → ⊥
not_nil [] u us h = cc
not_nil (x ∷ xs) u us h = cc

module _ {P : Platform} where
  -- The records behind the ones read: none, or the file ends inside of the first one's frame.
  abbrev pub IsCut : Codec P → List (WalRecord P) → Bytes → Type 0
  IsCut g lost torn =
      (lost ≡ [])
      ⊎ ((r : WalRecord P) × (later : List (WalRecord P)) × (u : ℕ) × (us : Bytes) × (lost
            ≡ r ∷ later)
          × (encode_record g r ≡ some (torn ++ u ∷ us)))

  -- What is read of a file `file` that begins the encoding of `rs`: the records of the whole frames
  -- at its front, and the offset behind them.
  pub record IsRead (g : Codec P) (rs : List (WalRecord P)) (file : Bytes)
      (found : List (WalRecord P) × ℕ) : Type 0 where
    pub lost : List (WalRecord P)
    pub whole : Bytes
    pub torn : Bytes
    pub records : rs ≡ found.0 ++ lost
    pub encoded : encode_all g found.0 ≡ some whole
    pub parts : file ≡ whole ++ torn
    pub offset : found.1 ≡ length whole
    pub cut : IsCut g lost torn

  -- A proper prefix of a frame reads as nothing.
  read_record_torn :
      (g : Codec P) (r : WalRecord P) (file us : Bytes) (u : ℕ)
      → IsFaithful g
      → IsLoggable g r
      → encode_record g r ≡ some (file ++ u ∷ us)
      → read_record g file ≡ none
  read_record_torn g r file us u q h e = elim (Option-cases (read_record g file)) [
    | inl z ↦ z
    | inr ((r', n, rest), z) ↦
        let longer = read_record_longer g file (u ∷ us) rest r' n z in
        let whole =
          subst (λ b. read_record g b ≡ some (r, length (file ++ u ∷ us), []))
            (append-nil (file ++ u ∷ us))
            (read_record-encode_record g r (file ++ u ∷ us) [] q h e).1 in
        absurd (
          not_nil rest u us
            (ap (λ (t : WalRecord P × ℕ × Bytes). t.2) (some-injective (sym longer ∙ whole))))
  ]

  nothing :
      (g : Codec P) (rs : List (WalRecord P)) (file : Bytes)
      → IsCut g rs file
      → IsRead g rs file ([], 0)
  unfolding encode_all
  nothing g rs file d = record {
    lost = rs;
    whole = [];
    torn = file;
    records = refl;
    encoded = refl;
    parts = refl;
    offset = refl;
    cut = d;
  }

  read_frames_torn :
      (g : Codec P) (fuel : ℕ) (rs : List (WalRecord P)) (file : Bytes)
      → read_record g file ≡ none
      → IsCut g rs file
      → IsRead g rs file (read_frames g fuel file)
  unfolding read_frames
  read_frames_torn g zero rs file h d = nothing g rs file d
  read_frames_torn g (suc fuel) rs file h d = rw (h, read_frames) (nothing g rs file d)

  IsRead-cons :
      (g : Codec P) (r : WalRecord P) (rs : List (WalRecord P)) (b file : Bytes)
      (found : List (WalRecord P) × ℕ)
      → encode_record g r ≡ some b
      → IsRead g rs file found
      → IsRead g (r ∷ rs) (b ++ file) (r ∷ found.0, length b + found.1)
  unfolding encode_all
  IsRead-cons g r rs b file found e i = record {
    lost = i.lost;
    whole = b ++ i.whole;
    torn = i.torn;
    records = ap (λ (l : List (WalRecord P)). r ∷ l) i.records;
    encoded = rw e (rw i.encoded refl);
    parts = rw i.parts (sym (append_assoc b i.whole i.torn));
    offset = omega (arith, i.offset, length-append b i.whole);
    cut = i.cut;
  }

  IsRead-step :
      (g : Codec P) (fuel : ℕ) (r : WalRecord P) (rs : List (WalRecord P)) (b us : Bytes)
      → encode_record g r ≡ some b
      → read_record g (b ++ us) ≡ some (r, length b, us)
      → IsRead g rs us (read_frames g fuel us)
      → IsRead g (r ∷ rs) (b ++ us) (read_frames g (suc fuel) (b ++ us))
  unfolding read_frames
  IsRead-step g fuel r rs b us e s i =
      rw (s, read_frames) (IsRead-cons g r rs b us (read_frames g fuel us) e i)

  read_frames-IsRead :
      (g : Codec P) (fuel : ℕ) (rs : List (WalRecord P)) (file rest : Bytes)
      → IsFaithful g
      → All (IsLoggable g) rs
      → encode_all g rs ≡ some (file ++ rest)
      → length file ≤ fuel
      → IsRead g rs file (read_frames g fuel file)
  unfolding encode_all
  read_frames-IsRead g fuel [] [] rest q a e l =
      read_frames_torn g fuel [] [] (read_record-nil g) (inl refl)
  read_frames-IsRead g fuel [] (x ∷ file) rest q a e l =
      absurd (not_nil [] x (file ++ rest) (sym (some-injective e)))
  read_frames-IsRead g fuel (r ∷ rs) file rest q a e l =
      let (b, e1, h1) = bind-eq-some (encode_record g r) _ e in
      let (c, e2, h2) = bind-eq-some (encode_all g rs) _ h1 in
      let cut = some-injective h2 in
      elim (append_split b c file rest cut) [
        | inl (u, us, f) ↦
            read_frames_torn g fuel (r ∷ rs) file
              (read_record_torn g r file us u q a.0 (e1 ∙ ap some f))
              (inr (r, rs, u, us, refl, e1 ∙ ap some f))
        | inr (us, f, k) ↦
            let step = read_record-encode_record g r b us q a.0 e1 in
            let m = suc_of fuel (omega (arith, length-append b us, ap length f, step.0, l)) in
            let n : length us ≤ m.0 =
              omega (arith, length-append b us, ap length f, step.0, l, m.1) in
            subst (λ x. IsRead g (r ∷ rs) x (read_frames g fuel x)) (sym f)
              (subst (λ x. IsRead g (r ∷ rs) (b ++ us) (read_frames g x (b ++ us))) (sym m.1)
                (IsRead-step g m.0 r rs b us e1 step.1
                  (read_frames-IsRead g m.0 rs us rest q a.1 (e2 ∙ ap some k) n)))
      ]

  read_records-IsRead :
      (g : Codec P) (rs : List (WalRecord P)) (file rest : Bytes)
      → IsFaithful g
      → All (IsLoggable g) rs
      → encode_all g rs ≡ some (file ++ rest)
      → IsRead g rs file (read_records g file)
  unfolding read_records
  read_records-IsRead g rs file rest q a e =
      read_frames-IsRead g (length file) rs file rest q a e (omega arith)

  -- Of a log that a crash cut at any byte, OpenWAL keeps the whole frames at the front and nothing
  -- else: the records that it gives are the first of the ones appended, the file that it leaves is
  -- their encoding, and either no record is lost or the file ended inside of the next one's frame.
  -- The records fit their fields and are not too long, and the codec is faithful.
  pub open_wal-encode_all :
      (g : Codec P) (rs : List (WalRecord P)) (file rest : Bytes)
      → IsFaithful g
      → All (IsLoggable g) rs
      → encode_all g rs ≡ some (file ++ rest)
      → (lost : List (WalRecord P)) × (torn : Bytes) × (rs ≡ (open_wal g file).1 ++ lost)
        × (encode_all g (open_wal g file).1 ≡ some (open_wal g file).0)
        × (file ≡ (open_wal g file).0 ++ torn)
        × IsCut g lost torn
  unfolding open_wal
  open_wal-encode_all g rs file rest q a e =
      let i = read_records-IsRead g rs file rest q a e in
      let t : take (read_records g file).1 file ≡ i.whole =
        rw i.offset (ap (take (length i.whole)) i.parts ∙ take_front i.whole i.torn) in
      (
        i.lost,
        i.torn,
        i.records,
        i.encoded ∙ ap some (sym t),
        i.parts ∙ ap (λ (b : Bytes). b ++ i.torn) (sym t),
        i.cut,
      )

  encode_all-append :
      (g : Codec P) (rs more : List (WalRecord P)) (b c : Bytes)
      → encode_all g rs ≡ some b
      → encode_all g more ≡ some c
      → encode_all g (rs ++ more) ≡ some (b ++ c)
  unfolding encode_all
  encode_all-append g [] more b c e f = f ∙ ap (λ (x : Bytes). some (x ++ c)) (some-injective e)
  encode_all-append g (r ∷ rs) more b c e f =
      let (x, e1, h1) = bind-eq-some (encode_record g r) _ e in
      let (y, e2, h2) = bind-eq-some (encode_all g rs) _ h1 in
      rw e1 (
        rw (encode_all-append g rs more y c e2 f)
          (ap some (sym (append_assoc x y c) ∙ ap (λ (z : Bytes). z ++ c) (some-injective h2))))

  All-front :
      (g : Codec P) (rs more : List (WalRecord P))
      → All (IsLoggable g) (rs ++ more)
      → All (IsLoggable g) rs
  All-front g [] more a = tt
  All-front g (r ∷ rs) more a = (a.0, All-front g rs more a.1)

  -- A log that was cut by a crash and by OpenWAL and then appended to opens again as it stands, with
  -- the records kept and the ones appended behind them, for records that fit and are not too long.
  pub open_wal_again :
      (g : Codec P) (rs more : List (WalRecord P)) (file rest b : Bytes)
      → IsFaithful g
      → All (IsLoggable g) rs
      → All (IsLoggable g) more
      → encode_all g rs ≡ some (file ++ rest)
      → encode_all g more ≡ some b
      → open_wal g ((open_wal g file).0 ++ b)
        ≡ ((open_wal g file).0 ++ b, (open_wal g file).1 ++ more)
  open_wal_again g rs more file rest b q a c e f =
      let (lost, torn, records, encoded, parts, cut) = open_wal-encode_all g rs file rest q a e in
      let found = (open_wal g file).1 in
      open_wal_whole g (found ++ more) ((open_wal g file).0 ++ b) q
        (All-append (IsLoggable g) found more
          (All-front g found lost (subst (All (IsLoggable g)) records a)) c)
        (encode_all-append g found more (open_wal g file).0 b encoded f)
