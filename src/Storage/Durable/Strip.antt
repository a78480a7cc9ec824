-- ===== src/Storage/Durable/Strip.antt =====
-- Tables up to their next ids, which the log does not hold: ids reserved by failed writes are lost
-- in a recovery.
use tsql.Base.{ℕ, String, ◌≡◌, refl, ap, ◌∙◌, sym, arith, List, [], ◌∷◌, none}
use tsql.Base.Int.{ℤ, pos, int_eq}
use tsql.Platform.{Platform}
use mathlib.Core.Option
use tsql.Storage.Table.{Row, Table, store_row, delete_row, bump_next_id}
use tsql.Storage.Engine.{find_table, find_id, on_table, drop_named}

module _ {P : Platform} where
  abbrev pub durable : Table P → Table P
  durable t = record t { next_id = pos 0 }

  abbrev pub strip : List (Table P) → List (Table P)
  strip [] = []
  strip (t ∷ ts) = durable t ∷ strip ts

  -- A change of a table that the next id does not steer.
  abbrev pub Respects : (Table P → Table P) → Type 0
  Respects f = (t : Table P) → (durable (f t) ≡ durable (f (durable t))) × ((f t).id ≡ t.id)

  strip-on_table :
      (id : ℕ) (f : Table P → Table P)
      → Respects f
      → (ts : List (Table P)) → strip (on_table id f ts) ≡ strip (on_table id f (strip ts))
  unfolding on_table
  strip-on_table id f h [] = refl
  strip-on_table id f h (t ∷ ts) = ground (arith, h t, strip-on_table id f h ts)

  -- Tables that agree so far still agree after the same change of the same table.
  pub on_table-strip :
      (id : ℕ) (f : Table P → Table P) (ts us : List (Table P))
      → Respects f
      → strip ts ≡ strip us
      → strip (on_table id f ts) ≡ strip (on_table id f us)
  on_table-strip id f ts us h e =
      strip-on_table id f h ts
      ∙ ap (λ l. strip (on_table id f l)) e
      ∙ sym (strip-on_table id f h us)

  pub store_row-Respects : (rid : ℤ) (row : Row P) → Respects (store_row rid row)
  unfolding store_row
  store_row-Respects rid row t = ground arith

  pub delete_row-Respects : (rid : ℤ) → Respects (delete_row rid)
  unfolding delete_row
  delete_row-Respects rid t = ground arith

  pub strip-store_row-bump :
      (id : ℕ) (rid : ℤ) (row : Row P) (ts : List (Table P))
      → strip (on_table id (λ t. bump_next_id rid (store_row rid row t)) ts)
        ≡ strip (on_table id (store_row rid row) ts)
  unfolding on_table
  strip-store_row-bump id rid row [] = refl
  strip-store_row-bump id rid row (t ∷ ts) = ground (arith, strip-store_row-bump id rid row ts)

  pub strip-next_id :
      (id : ℕ) (f : Table P → ℤ) (ts : List (Table P))
      → strip (on_table id (λ t. record t { next_id = f t }) ts) ≡ strip ts
  unfolding on_table
  strip-next_id id f [] = refl
  strip-next_id id f (t ∷ ts) = ground (arith, strip-next_id id f ts)

  find_table-strip :
      (name : String) (ts : List (Table P))
      → find_table name (strip ts) ≡ Option.map durable (find_table name ts)
  unfolding find_table
  find_table-strip name [] = refl
  find_table-strip name (t ∷ ts) = ground (arith, find_table-strip name ts)

  find_id-strip :
      (id : ℕ) (ts : List (Table P)) → find_id id (strip ts) ≡ Option.map durable (find_id id ts)
  unfolding find_id
  find_id-strip id [] = refl
  find_id-strip id (t ∷ ts) = ground (arith, find_id-strip id ts)

  strip-drop_named :
      (name : String) (ts : List (Table P))
      → strip (drop_named name ts) ≡ drop_named name (strip ts)
  unfolding drop_named
  strip-drop_named name [] = refl
  strip-drop_named name (t ∷ ts) = ground (arith, strip-drop_named name ts)

  pub drop_named-strip :
      (name : String) (ts us : List (Table P))
      → strip ts ≡ strip us
      → strip (drop_named name ts) ≡ strip (drop_named name us)
  drop_named-strip name ts us e =
      strip-drop_named name ts ∙ ap (drop_named name) e ∙ sym (strip-drop_named name us)

  -- Both lists have a table of that name, or neither has.
  pub find_table-none :
      (name : String) (ts us : List (Table P))
      → strip ts ≡ strip us
      → find_table name us ≡ none
      → find_table name ts ≡ none
  find_table-none name ts us e h =
      ground (arith, find_table-strip name ts, find_table-strip name us, ap (find_table name) e)

  pub find_id-none :
      (id : ℕ) (ts us : List (Table P))
      → strip ts ≡ strip us
      → find_id id ts ≡ none
      → find_id id us ≡ none
  find_id-none id ts us e h =
      ground (arith, find_id-strip id ts, find_id-strip id us, ap (find_id id) e)
