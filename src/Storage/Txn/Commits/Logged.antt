-- ===== src/Storage/Txn/Commits/Logged.antt =====
-- On commitTxn: the records that it logs and what it does in memory.
use mathlib.Core.Option
use mathlib.Core.Path.{subst}
use tsql.Base.{ℕ, String, ◌≡◌, ◌≢◌, refl, ◌∙◌, ap, arith, List, [], ◌∷◌, All, ok}
use tsql.Base.{Option, none, some, Option-cases, inl, inr, bind-eq-ok, ok-injective}
use tsql.Platform.{Platform}
use tsql.Storage.Table.{Table, store_row, delete_row}
use tsql.Storage.Wal.{WalRecord}
use tsql.Storage.Engine.{Engine, Memory, find_table, find_id, on_table, edit}
use tsql.Storage.Recovery.{apply_record, apply_pending}
use tsql.Storage.Txn.{Op, op_put, op_delete, op_name}
use tsql.Storage.Commit.{op_effect, record_of, apply_op, apply_ops}
use tsql.Storage.Commit.{commit_records}
use tsql.Storage.Txn.Writes.{find_table-on_table}
use tsql.Storage.Durable.Strip.{strip, Respects, on_table-strip, find_id-none}
use tsql.Storage.Durable.Replay.{IsBody, payload}
use tsql.Storage.Durable.Ops.{found_by_id}

module _ {P : Platform} where
  -- The id of the table of a name.
  abbrev pub table_id : String → List (Table P) → Option ℕ
  table_id name ts = Option.map (λ (t : Table P). t.id) (find_table name ts)

  op_effect-Respects : (o : Op P) → Respects (op_effect o)
  unfolding store_row delete_row
  op_effect-Respects (op_put name rid row) t = ground arith
  op_effect-Respects (op_delete name rid) t = ground arith

  pub op_effect-name : (o : Op P) (t : Table P) → (op_effect o t).name ≡ t.name
  unfolding store_row delete_row
  op_effect-name (op_put name rid row) t = ground arith
  op_effect-name (op_delete name rid) t = ground arith

  pub table_id-edit :
      (name : String) (id : ℕ) (o : Op P) (ts : List (Table P))
      → table_id name (on_table id (op_effect o) ts) ≡ table_id name ts
  table_id-edit name id o ts =
      ap (Option.map (λ (t : Table P). t.id))
        (find_table-on_table name id (op_effect o) ts (op_effect-name o))
      ∙ (elim (Option-cases (find_table name ts)) [
        | inl h ↦ rw h refl
        | inr (t, h) ↦ rw h (ground (arith, (op_effect-Respects o t).1))
      ])

  table_id-found :
      (name : String) (ts us : List (Table P)) (t : Table P)
      → table_id name us ≡ table_id name ts
      → find_table name ts ≡ some t
      → (u : Table P) × (find_table name us ≡ some u) × (u.id ≡ t.id)
  table_id-found name ts us t h k = elim (Option-cases (find_table name us)) [
    | inl q ↦ absurd (ground arith)
    | inr (u, q) ↦ (u, q, ground arith)
  ]

  record_of-IsBody : (id tid : ℕ) (o : Op P) → IsBody id (record_of id tid o)
  record_of-IsBody id tid (op_put name rid row) = refl
  record_of-IsBody id tid (op_delete name rid) = refl

  payload-record_of :
      (id tid : ℕ) (o : Op P) (rs : List (WalRecord P))
      → payload (record_of id tid o ∷ rs) ≡ record_of id tid o ∷ payload rs
  payload-record_of id tid (op_put name rid row) rs = refl
  payload-record_of id tid (op_delete name rid) rs = refl

  apply_record_of :
      (id tid : ℕ) (o : Op P) (m : Memory P)
      → find_id tid m.tables ≢ none
      → apply_record (record_of id tid o) m ≡ ok (edit tid (op_effect o) m)
  unfolding apply_record
  apply_record_of id tid o m h = elim (Option-cases (find_id tid m.tables)) [
    | inl q ↦ absurd (h q)
    | inr (t, q) ↦ by_kind o t q
  ]
    where
      by_kind :
          (o : Op P) (t : Table P)
          → find_id tid m.tables ≡ some t
          → apply_record (record_of id tid o) m ≡ ok (edit tid (op_effect o) m)
      by_kind (op_put name rid row) t q = rw (q, apply_record) refl
      by_kind (op_delete name rid) t q = rw (q, apply_record) refl

  -- The log and the memory go the same way from states that agree.
  pub record Follows (recs : List (WalRecord P)) (ops : List (Op P)) (m k : Memory P) : Type 0 where
    pub rebuilt : Memory P
    pub stored : Memory P
    pub replayed : apply_pending recs m ≡ ok rebuilt
    pub applied : apply_ops ops k ≡ ok stored
    pub tables : strip rebuilt.tables ≡ strip stored.tables
    pub next : rebuilt.next_table_id ≡ stored.next_table_id

  abbrev Related : Engine P → Memory P → Memory P → Type 0
  Related e m k =
      (strip m.tables ≡ strip k.tables)
      × (m.next_table_id ≡ k.next_table_id)
      × ((name : String) → table_id name k.tables ≡ table_id name e.tables)

  edit-Related :
      (e : Engine P) (m k : Memory P) (id : ℕ) (o : Op P)
      → Related e m k
      → Related e (edit id (op_effect o) m) (edit id (op_effect o) k)
  edit-Related e m k id o (tables, next, ids) = (
    on_table-strip id (op_effect o) m.tables k.tables (op_effect-Respects o) tables,
    next,
    λ name. table_id-edit name id o k.tables ∙ ids name,
  )

  Follows-cons :
      (id : ℕ) (o : Op P) (recs : List (WalRecord P)) (ops : List (Op P)) (e : Engine P)
      (t : Table P) (m k : Memory P)
      → find_table (op_name o) e.tables ≡ some t
      → Related e m k
      → Follows recs ops (edit t.id (op_effect o) m) (edit t.id (op_effect o) k)
      → Follows (record_of id t.id o ∷ recs) (o ∷ ops) m k
  unfolding apply_pending apply_ops apply_op
  Follows-cons id o recs ops e t m k found (tables, next, ids) f =
      let (u, q, same) = table_id-found (op_name o) e.tables k.tables t (ids (op_name o)) found in
      record {
        rebuilt = f.rebuilt;
        stored = f.stored;
        replayed =
            rw
              (apply_record_of id t.id o m (λ z.
                found_by_id (op_name o) k.tables u q
                  (rw same (find_id-none t.id m.tables k.tables tables z))))
              f.replayed;
        applied = rw (q, apply_op) (rw same f.applied);
        tables = f.tables;
        next = f.next;
      }

  -- What commitTxn logs belongs to the transaction, and recovery does with it what the memory does.
  pub record IsLoggedFor (id : ℕ) (ops : List (Op P)) (e : Engine P) (recs : List (WalRecord P))
      : Type 0 where
    pub body : All (IsBody id) recs
    pub plain : payload recs ≡ recs
    pub follows : (m k : Memory P) → Related e m k → Follows recs ops m k

  -- Where every table of the buffer exists, the logged records belong to the transaction, and on
  -- states that agree a recovery that applies them and the memory that applies the buffer both
  -- succeed and agree again.
  pub commit_records-IsLoggedFor :
      (id : ℕ) (ops : List (Op P)) (e : Engine P) (recs : List (WalRecord P))
      → commit_records id ops e ≡ ok recs
      → IsLoggedFor id ops e recs
  unfolding commit_records
  commit_records-IsLoggedFor id [] e recs h = subst (IsLoggedFor id [] e) (ok-injective h) (record {
    body = tt;
    plain = refl;
    follows = λ m k (tables, next, ids).
        unfold apply_pending apply_ops in
        record {
          rebuilt = m;
          stored = k;
          replayed = refl;
          applied = refl;
          tables = tables;
          next = next;
        };
  })
  commit_records-IsLoggedFor id (o ∷ os) e recs h =
      elim (Option-cases (find_table (op_name o) e.tables)) [
        | inl q ↦ absurd (ground arith)
        | inr (t, q) ↦
            let h' = rw (q, commit_records) at h in
            let (rest, e1, e2) = bind-eq-ok (commit_records id os e) _ h' in
            let l = commit_records-IsLoggedFor id os e rest e1 in
            subst (IsLoggedFor id (o ∷ os) e) (ok-injective e2) (record {
              body = (record_of-IsBody id t.id o, l.body);
              plain = payload-record_of id t.id o rest ∙ rw l.plain refl;
              follows = λ m k r. Follows-cons id o rest os e t m k q r (
                  l.follows (edit t.id (op_effect o) m) (edit t.id (op_effect o) k)
                    (edit-Related e m k t.id o r));
            })
      ]
