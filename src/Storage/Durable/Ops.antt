-- ===== src/Storage/Durable/Ops.antt =====
-- On Engine.txn and the effects of the autocommit operations: the log and the tables.
use tsql.Base.{
  ℕ, ◌+◌, ◌%◌, ◌<◌, ◌^◌, String, ◌≡◌, refl, ap, ◌∙◌, sym, arith, Bool, false, none, some,
}
use tsql.Base.{List, [], ◌∷◌, ok, Bool-cases, Option-cases, inl, inr}
use tsql.Base.Int.{ℤ, int_eq}
use tsql.Base.{◌≢◌}
use mathlib.Core.Path.{ap₂}
use tsql.Platform.{Platform}
use tsql.Schema.{Column}
use tsql.Storage.Table.{Row, Table, store_row, delete_row, bump_next_id}
use tsql.Storage.Wal.{WalRecord, begin, put, delete, create, drop, Wal, append_all}
use tsql.Storage.Engine.{
  Engine, Memory, on_mem, next_tx, txn_records, txn, finish, note_write, edit,
}
use tsql.Storage.Engine.{find_table, find_id, add_table, new_table, remove_table}
use tsql.Storage.Recovery.{apply_record, apply_pending}
use tsql.Storage.Durable.Strip.{
  strip, durable, on_table-strip, store_row-Respects, delete_row-Respects,
}
use tsql.Storage.Durable.Strip.{
  strip-store_row-bump, drop_named-strip, find_table-none, find_id-none,
}
use tsql.Storage.Durable.Replay.{IsBody, payload}
use tsql.Storage.Durable.Writes.{IsKept, committed, cut_off}

module _ {P : Platform} where
  -- A change that recovery does not see.
  pub IsKept-hidden :
      {base : Memory P} {e : Engine P} {live : ℕ → Bool} (e' : Engine P)
      → IsKept base live e
      → strip e'.tables ≡ strip e.tables
      → e'.next_table_id ≡ e.next_table_id
      → e'.wal ≡ e.wal
      → e'.tx_seq ≡ e.tx_seq
      → IsKept base live e'
  IsKept-hidden e' d tables next wal seq = record {
    rebuilt = d.rebuilt;
    pending = d.pending;
    replays = rw wal d.replays;
    same_tables = d.same_tables ∙ sym tables;
    same_next = d.same_next ∙ sym next;
    fresh = λ tx h. d.fresh tx (omega arith);
    clean = d.clean;
    begun = λ tx h. omega (arith, d.begun tx h);
    synced = rw wal d.synced;
  }

  -- The record of an autocommit transaction: any but begin and commit.
  abbrev pub IsWrite : ℕ → WalRecord P → Type 0
  IsWrite tx r = IsBody tx r × (payload (r ∷ []) ≡ r ∷ [])

  -- What the memory does with the record must agree with what recovery does with it.
  pub record Agrees (m : Memory P) (e : Engine P) (r : WalRecord P) (effect : Engine P → Engine P)
      : Type 0 where
    pub rebuilt : Memory P
    pub applied : apply_record r m ≡ ok rebuilt
    pub tables :
        (u : Engine P)
        → u.tables ≡ e.tables
        → u.next_table_id ≡ e.next_table_id
        → strip rebuilt.tables ≡ strip (effect u).tables
    pub next :
        (u : Engine P)
        → u.next_table_id ≡ e.next_table_id
        → rebuilt.next_table_id ≡ (effect u).next_table_id
    pub quiet : (u : Engine P) → ((effect u).wal ≡ u.wal) × ((effect u).tx_seq ≡ u.tx_seq)

  apply_one :
      (tx : ℕ) (r : WalRecord P) (m m' : Memory P)
      → payload (r ∷ []) ≡ r ∷ []
      → apply_record r m ≡ ok m'
      → apply_pending (payload (begin tx ∷ r ∷ [])) m ≡ ok m'
  unfolding apply_pending
  apply_one tx r m m' p h = rw p (rw h refl)

  module _ {A : Type 0} {base : Memory P} {e : Engine P} {live : ℕ → Bool} (d : IsKept base live e)
      (room : e.tx_seq + 1 < 2 ^ 64) (fn : ℕ → WalRecord P)
      (write : IsWrite (e.tx_seq + 1) (fn (e.tx_seq + 1))) (effect : Engine P → Engine P) (a : A)
      (g : Agrees d.rebuilt e (fn (e.tx_seq + 1)) effect) where
    tx_of : next_tx e ≡ e.tx_seq + 1
    tx_of = omega arith

    dead : live (e.tx_seq + 1) ≡ false
    dead = elim (Bool-cases (live (e.tx_seq + 1))) [
      | inl h ↦ absurd (omega (arith, d.begun (e.tx_seq + 1) h))
      | inr h ↦ h
    ]

    abbrev grown : Wal P × Bool
    grown = append_all (txn_records (e.tx_seq + 1) fn) e.wal

    abbrev moved : Engine P
    moved = record e { tx_seq = e.tx_seq + 1; wal = grown.0 }

    pub txn-IsKept : IsKept base live (finish effect a (txn fn e)).0
    unfolding txn
    txn-IsKept = rw tx_of (elim (Bool-cases grown.1) [
      | inl done ↦ rw done (
          committed d (e.tx_seq + 1) (begin (e.tx_seq + 1) ∷ fn (e.tx_seq + 1) ∷ [])
            (refl, (write.0, tt)) (effect moved) live (g.quiet moved).0
            (omega (arith, (g.quiet moved).1)) (λ k h. h) g.rebuilt done
            (d.fresh (e.tx_seq + 1) (omega arith))
            (apply_one (e.tx_seq + 1) (fn (e.tx_seq + 1)) d.rebuilt g.rebuilt write.1 g.applied)
            (g.tables moved refl refl) (g.next moved refl))
      | inr failed ↦ rw failed (
          cut_off d (e.tx_seq + 1) (begin (e.tx_seq + 1) ∷ fn (e.tx_seq + 1) ∷ [])
            (refl, (write.0, tt)) moved live refl (omega arith) (λ k h. h) failed (omega arith) dead
            refl refl)
    ])

  pub found_by_id :
      (name : String) (ts : List (Table P)) (t : Table P)
      → find_table name ts ≡ some t
      → find_id t.id ts ≢ none
  unfolding find_table find_id
  found_by_id name [] t h = λ q. cc
  found_by_id name (u ∷ us) t h = λ q. ground (arith, found_by_id name us t)

  pub create-Agrees :
      {base : Memory P} {e : Engine P} {live : ℕ → Bool} (d : IsKept base live e) (tx : ℕ)
      (name : String) (cols : List Column)
      → find_table name e.tables ≡ none
      → Agrees d.rebuilt e (create tx name cols) (on_mem (add_table name cols))
  unfolding add_table apply_record
  create-Agrees {e = e} d tx name cols h = record {
    rebuilt = add_table name cols d.rebuilt;
    applied =
        rw (find_table-none name d.rebuilt.tables e.tables d.same_tables h, apply_record) refl;
    tables = λ u ht hn.
        ap₂ (λ n ts. durable (new_table n name cols) ∷ ts) (d.same_next ∙ sym hn)
          (d.same_tables ∙ ap strip (sym ht));
    next = λ u hn. ap (λ n. (n + 1) % 2 ^ 32) (d.same_next ∙ sym hn);
    quiet = λ u. (refl, refl);
  }

  pub drop-Agrees :
      {base : Memory P} {e : Engine P} {live : ℕ → Bool} (d : IsKept base live e) (tx : ℕ)
      (name : String)
      → Agrees d.rebuilt e (drop tx name) (on_mem (remove_table name))
  unfolding apply_record
  drop-Agrees {e = e} d tx name = record {
    rebuilt = remove_table name d.rebuilt;
    applied = refl;
    tables = λ u ht hn.
        drop_named-strip name d.rebuilt.tables u.tables (d.same_tables ∙ ap strip (sym ht));
    next = λ u hn. d.same_next ∙ sym hn;
    quiet = λ u. (refl, refl);
  }

  pub note_write_quiet :
      (u : Engine P)
      → ((note_write u).tables ≡ u.tables)
        × ((note_write u).next_table_id ≡ u.next_table_id)
        × ((note_write u).wal ≡ u.wal)
        × ((note_write u).tx_seq ≡ u.tx_seq)
  unfolding note_write
  note_write_quiet u = ground arith

  -- A table that is found in memory is found in the rebuilt tables.
  rebuilt_id :
      {base : Memory P} {e : Engine P} {live : ℕ → Bool} (d : IsKept base live e) (id : ℕ)
      → find_id id e.tables ≢ none
      → (t : Table P) × (find_id id d.rebuilt.tables ≡ some t)
  rebuilt_id {e = e} d id h = elim (Option-cases (find_id id d.rebuilt.tables)) [
    | inl q ↦ absurd (h (find_id-none id d.rebuilt.tables e.tables d.same_tables q))
    | inr found ↦ found
  ]

  pub put-Agrees :
      {base : Memory P} {e : Engine P} {live : ℕ → Bool} (d : IsKept base live e) (tx id : ℕ)
      (rid : ℤ) (row : Row P)
      → find_id id e.tables ≢ none
      → Agrees d.rebuilt e
          (put tx id rid row)
          (λ u. note_write (on_mem (edit id (store_row rid row)) u))
  unfolding apply_record
  put-Agrees {e = e} d tx id rid row h = record {
    rebuilt = edit id (λ t. bump_next_id rid (store_row rid row t)) d.rebuilt;
    applied = rw ((rebuilt_id d id h).1, apply_record) refl;
    tables = λ u ht hn.
        strip-store_row-bump id rid row d.rebuilt.tables
        ∙ on_table-strip id (store_row rid row) d.rebuilt.tables u.tables
            (store_row-Respects rid row) (d.same_tables ∙ ap strip (sym ht))
        ∙ ap strip (sym (note_write_quiet (on_mem (edit id (store_row rid row)) u)).0);
    next = λ u hn.
        d.same_next ∙ sym hn ∙ sym (note_write_quiet (on_mem (edit id (store_row rid row)) u)).1;
    quiet =
        λ u. let (a, b, c, q) = note_write_quiet (on_mem (edit id (store_row rid row)) u) in (c, q);
  }

  pub delete-Agrees :
      {base : Memory P} {e : Engine P} {live : ℕ → Bool} (d : IsKept base live e) (tx id : ℕ)
      (rid : ℤ)
      → find_id id e.tables ≢ none
      → Agrees d.rebuilt e
          (delete tx id rid)
          (λ u. note_write (on_mem (edit id (delete_row rid)) u))
  unfolding apply_record
  delete-Agrees {e = e} d tx id rid h = record {
    rebuilt = edit id (delete_row rid) d.rebuilt;
    applied = rw ((rebuilt_id d id h).1, apply_record) refl;
    tables = λ u ht hn.
        on_table-strip id (delete_row rid) d.rebuilt.tables u.tables (delete_row-Respects rid)
          (d.same_tables ∙ ap strip (sym ht))
        ∙ ap strip (sym (note_write_quiet (on_mem (edit id (delete_row rid)) u)).0);
    next = λ u hn.
        d.same_next ∙ sym hn ∙ sym (note_write_quiet (on_mem (edit id (delete_row rid)) u)).1;
    quiet =
        λ u. let (a, b, c, q) = note_write_quiet (on_mem (edit id (delete_row rid)) u) in (c, q);
  }
