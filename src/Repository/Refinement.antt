-- ===== src/Repository/Refinement.antt =====
-- The operations of src/record_repository.rs against the abstract registry.
use mathlib.Core.List.{Permᴰ}
use mathlib.Core.Path.{subst}
use swandns.Prelude.{
  String, ◌≡◌, refl, ap, ◌∙◌, ◌⊎◌, inl, inr, true, Option, none, some, List, map, Result, ok, err,
  Result-cases, All, perm_nil, perm_one,
}
use swandns.Messages.{UpsertRecordRequest, RecordReply, FindUniqueRecordRequest}
use swandns.Sqlite.{
  Row, Statement, insert_or_update, delete_where, Query, select_where, SqlError, no_rows, run,
  answers, rows_where, Engine, IsSqlite,
}
use swandns.Repository.{first_row, find_unique, delete}
use swandns.Repository.Entries.{
  Entry, Registry, put, remove, find, put_entry, drop_entry, IsUnique, HasSmallTtl, find-put_entry,
  find-drop_entry, put_entry-IsUnique, drop_entry-IsUnique, All-put_entry, All-drop_entry,
  find-HasSmallTtl,
}
use swandns.Repository.Table.{
  encode, reply, row_of, rows_where-encode, insert_row-encode, rows_not_where-encode,
  read_row-encode,
}

-- The table holds the entries of a registry, one row for each key.
pub record Implements (db : Engine) (c : db.Conn) (reg : Registry db.Time) : Type 0 where
  pub entries : List (Entry db.Time)
  pub stored : db.rows c ≡ map (encode db) entries
  pub unique : IsUnique entries
  pub small : All HasSmallTtl entries
  pub view : (name type : String) → find name type entries ≡ reg name type

-- what a lookup of one key answers
abbrev pub answer : (db : Engine) → Option (Entry db.Time) → Result SqlError RecordReply
answer db none = err no_rows
answer db (some e) = ok (reply db true e)

-- `r` is the expected answer, or the error with which the engine failed to answer the query.
abbrev pub Reads :
    (db : Engine)
    → Query db.Value
    → db.Conn
    → Result SqlError RecordReply
    → Result SqlError RecordReply
    → Type 0
Reads db q c r expected =
    (r ≡ expected) ⊎ ((e : SqlError) × ((db.query q c).0 ≡ err e) × (r ≡ err e))

abbrev pub key_query : (db : Engine) → String → String → Query db.Value
key_query db name type = select_where (db.of_text name) (db.of_text type)

-- the statement of a deletion
abbrev pub delete_of : (db : Engine) → FindUniqueRecordRequest → Statement db.Value
delete_of db request = delete_where (db.of_text request.name) (db.of_text request.type)

-- the entry of a request that arrives at `now`
abbrev pub new_entry : {T : Type 0} → T → UpsertRecordRequest → Entry T
new_entry now request = record {
  name = request.name;
  type = request.type;
  content = request.value;
  ttl = request.ttl;
  created_at = now;
  updated_at = now;
}

module _ (db : Engine) where
  pub Implements-of_rows :
      {c : db.Conn} {reg : Registry db.Time} (c' : db.Conn)
      → db.rows c' ≡ db.rows c
      → Implements db c reg
      → Implements db c' reg
  Implements-of_rows c' same h = record {
    entries = h.entries;
    stored = same ∙ h.stored;
    unique = h.unique;
    small = h.small;
    view = h.view;
  }

module _ (db : Engine) (sql : IsSqlite db) where
  first_row-row_of :
      (rs : List (Row db.Value)) (o : Option (Entry db.Time))
      → Permᴰ rs (row_of db o)
      → ((e : Entry db.Time) → o ≡ some e → HasSmallTtl e)
      → first_row db (ok rs) ≡ answer db o
  unfolding first_row
  first_row-row_of rs none p small = rw (perm_nil p refl)
  first_row-row_of rs (some e) p small =
      rw (perm_one p (encode db e) refl) (read_row-encode db sql (λ _. true) e (small e refl))

  rows_of_key :
      {c : db.Conn} {reg : Registry db.Time} (name type : String) (rs : List (Row db.Value))
      → Implements db c reg
      → (db.query (key_query db name type) c).0 ≡ ok rs
      → Permᴰ rs (row_of db (reg name type))
  unfolding answers
  rows_of_key {c} name type rs h e =
      let q = key_query db name type in
      let p = sql.answered q c (db.query q c).1 rs (λ i. (e i, (db.query q c).1)) in
      subst (Permᴰ rs)
        (ap (rows_where db.same (db.of_text name) (db.of_text type)) h.stored
          ∙ rows_where-encode db sql name type h.entries h.unique
          ∙ ap (row_of db) (h.view name type))
        p

  small_of_key :
      {c : db.Conn} {reg : Registry db.Time} (name type : String) (e : Entry db.Time)
      → Implements db c reg
      → reg name type ≡ some e
      → HasSmallTtl e
  small_of_key name type e h found =
      find-HasSmallTtl name type h.entries e h.small (h.view name type ∙ found)

  -- Over SQLite, a lookup leaves the registry alone. It answers with the entry of its key as it was
  -- last written, or that there is none, or fails with the error of the engine.
  pub find_unique-Implements :
      (request : FindUniqueRecordRequest) (c : db.Conn) (reg : Registry db.Time)
      → Implements db c reg
      → Implements db (find_unique db request c).1 reg
        × Reads db
            (key_query db request.name request.type)
            c
            (find_unique db request c).0
            (answer db (reg request.name request.type))
  unfolding find_unique
  find_unique-Implements request c reg h =
      let q = key_query db request.name request.type in
      (
        Implements-of_rows db (db.query q c).1 (sql.unchanged q c) h,
        elim (Result-cases (db.query q c).0) [
          | inl (rs, e) ↦ inl (
              rw e (
                first_row-row_of rs (reg request.name request.type)
                  (rows_of_key request.name request.type rs h e)
                  (λ x found. small_of_key request.name request.type x h found)))
          | inr (x, e) ↦ inr (x, e, unfold first_row in rw e)
        ],
      )

  pub put-Implements :
      (new : Entry db.Time) (c c' : db.Conn) (reg : Registry db.Time)
      → HasSmallTtl new
      → Implements db c reg
      → db.execute (insert_or_update (encode db new)) c ≡ (ok tt, c')
      → Implements db c' (put new reg)
  unfolding run
  put-Implements new c c' reg fits h done = record {
    entries = put_entry new h.entries;
    stored =
        sql.executed _ c c' done
        ∙ ap (λ rs. run db.same (insert_or_update (encode db new)) rs) h.stored
        ∙ insert_row-encode db sql new h.entries;
    unique = put_entry-IsUnique new h.entries h.unique;
    small = All-put_entry new h.entries fits h.small;
    view = λ name type.
        find-put_entry new h.entries name type ∙ rw (h.view new.name new.type, h.view name type);
  }

  pub remove-Implements :
      (name type : String) (c c' : db.Conn) (reg : Registry db.Time)
      → Implements db c reg
      → db.execute (delete_where (db.of_text name) (db.of_text type)) c ≡ (ok tt, c')
      → Implements db c' (remove name type reg)
  unfolding run
  remove-Implements name type c c' reg h done = record {
    entries = drop_entry name type h.entries;
    stored =
        sql.executed _ c c' done
        ∙ ap (λ rs. run db.same (delete_where (db.of_text name) (db.of_text type)) rs) h.stored
        ∙ rows_not_where-encode db sql name type h.entries;
    unique = drop_entry-IsUnique name type h.entries h.unique;
    small = All-drop_entry name type h.entries h.small;
    view = λ name' type'. find-drop_entry name type h.entries name' type' ∙ rw (h.view name' type');
  }

  -- Over SQLite, a deletion that the engine executes succeeds and removes the entry of its key and
  -- no other; one that it refuses returns its error and changes nothing.
  pub delete-Implements :
      (request : FindUniqueRecordRequest) (c : db.Conn) (reg : Registry db.Time)
      → Implements db c reg
      → (((db.execute (delete_of db request) c).0 ≡ ok tt)
          × ((delete db request c).0 ≡ ok tt)
          × Implements db (delete db request c).1 (remove request.name request.type reg))
        ⊎ ((e : SqlError) × ((db.execute (delete_of db request) c).0 ≡ err e)
            × ((delete db request c).0 ≡ err e)
            × Implements db (delete db request c).1 reg)
  unfolding delete
  delete-Implements request c reg h =
      let s = delete_of db request in
      let c' = (db.execute s c).1 in
      elim (Result-cases (db.execute s c).0) [
        | inl (_, e) ↦
            inl (e, e, remove-Implements request.name request.type c c' reg h (λ i. (e i, c')))
        | inr (x, e) ↦
            inr (x, e, e, Implements-of_rows db c' (sql.not_executed s c c' x (λ i. (e i, c'))) h)
      ]
