-- ===== src/Repository/Table.antt =====
-- A table as SQLite keeps it, row by row, and the entries that it stands for: each statement and
-- each query of src/record_repository.rs against the operation on entries.
use swandns.Prelude.{
  String, ◌≡◌, refl, Bool, Option, none, some, List, [], ◌∷◌, map, eq_iff, ok, arith,
}
use swandns.Sqlite.{Row, matches, rows_where, rows_not_where, insert_row, Engine, IsSqlite}
use swandns.Messages.{RecordReply}
use swandns.Repository.{read_row}
use swandns.Repository.Entries.{Entry, has_key, find, put_entry, drop_entry, IsUnique, HasSmallTtl}

module _ (db : Engine) where
  abbrev pub encode : Entry db.Time → Row db.Value
  encode e = record {
    name = db.of_text e.name;
    type = db.of_text e.type;
    content = db.of_text e.content;
    ttl = db.of_u32 e.ttl;
    created_at = db.of_time e.created_at;
    updated_at = db.of_time e.updated_at;
  }

  -- what a client reads of an entry
  abbrev pub reply : Bool → Entry db.Time → RecordReply
  reply healthy e = record {
    name = e.name;
    type = e.type;
    content = e.content;
    ttl = e.ttl;
    created_at = db.unix_timestamp e.created_at;
    updated_at = db.unix_timestamp e.updated_at;
    healthy = healthy;
  }

  -- the row of a key, if there is one
  abbrev pub row_of : Option (Entry db.Time) → List (Row db.Value)
  row_of none = []
  row_of (some e) = encode e ∷ []

module _ (db : Engine) (sql : IsSqlite db) where
  matches-encode :
      (name type : String) (e : Entry db.Time)
      → matches db.same (db.of_text name) (db.of_text type) (encode db e) ≡ has_key name type e
  unfolding matches
  matches-encode name type e = rw (sql.same_text, sql.same_text)

  pub rows_where-none :
      (name type : String) (es : List (Entry db.Time))
      → find name type es ≡ none
      → rows_where db.same (db.of_text name) (db.of_text type) (map (encode db) es) ≡ []
  unfolding find rows_where
  rows_where-none name type [] h = refl
  rows_where-none name type (e ∷ es) h =
      ground (arith, rows_where-none name type es, matches-encode name type e)

  pub rows_where-encode :
      (name type : String) (es : List (Entry db.Time))
      → IsUnique es
      → rows_where db.same (db.of_text name) (db.of_text type) (map (encode db) es)
        ≡ row_of db (find name type es)
  unfolding find rows_where
  rows_where-encode name type [] u = refl
  rows_where-encode name type (e ∷ es) u = ground (
    arith,
    rows_where-encode name type es u.1,
    rows_where-none name type es,
    matches-encode name type e,
    eq_iff e.name name,
    eq_iff e.type type,
  )

  pub insert_row-encode :
      (new : Entry db.Time) (es : List (Entry db.Time))
      → insert_row db.same (encode db new) (map (encode db) es) ≡ map (encode db) (put_entry new es)
  unfolding put_entry insert_row
  insert_row-encode new [] = refl
  insert_row-encode new (e ∷ es) =
      ground (arith, insert_row-encode new es, matches-encode new.name new.type e)

  pub rows_not_where-encode :
      (name type : String) (es : List (Entry db.Time))
      → rows_not_where db.same (db.of_text name) (db.of_text type) (map (encode db) es)
        ≡ map (encode db) (drop_entry name type es)
  unfolding drop_entry rows_not_where
  rows_not_where-encode name type [] = refl
  rows_not_where-encode name type (e ∷ es) =
      ground (arith, rows_not_where-encode name type es, matches-encode name type e)

  -- A stored entry is read back whole.
  pub read_row-encode :
      (health : db.Time → Bool) (e : Entry db.Time)
      → HasSmallTtl e
      → read_row db health (encode db e) ≡ ok (reply db (health e.updated_at) e)
  unfolding read_row
  read_row-encode health e h = rw (
    sql.get_time e.created_at,
    sql.get_time e.updated_at,
    sql.get_text e.name,
    sql.get_text e.type,
    sql.get_text e.content,
    sql.get_u32 e.ttl h,
  )
