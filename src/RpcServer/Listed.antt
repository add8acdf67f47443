-- ===== src/RpcServer/Listed.antt =====
-- `list` (src/rpc_server/records.rs) from the table to the client: what the stream of a listing of
-- src/record_repository.rs delivers.
use swandns.Prelude.{ℕ, String, ◌≡◌, ap, ◌∙◌, ◌⊎◌, inl, inr, List, [], err}
use swandns.Sqlite.{SqlError, Engine, IsSqlite}
use swandns.Repository.{list}
use swandns.Repository.Entries.{Entry, Registry, find, IsUnique}
use swandns.Repository.Refinement.{Implements}
use swandns.Repository.Listing.{replies, list-Implements}
use swandns.RpcServer.Stream.{Stream, start, Reach, IsOver, listed, received_all}

module _ (db : Engine) (sql : IsSqlite db) (now : ℕ → db.Time) where
  -- Over SQLite, a client that reads the stream of `list` to its end has received a reply for each
  -- entry of the registry that was listed, each key once and no other, with its health, however
  -- the steps interleaved. If the listing failed it has received nothing, and has seen the same
  -- end and no error.
  pub list_delivers :
      (c : db.Conn) (reg : Registry db.Time) {s : Stream}
      → Implements db c reg
      → Reach (start (list db now c).0) s
      → IsOver s
      → ((es : List (Entry db.Time)) × IsUnique es
          × ((name type : String) → find name type es ≡ reg name type)
          × (s.received ≡ replies db now 0 es))
        ⊎ ((e : SqlError) × ((list db now c).0 ≡ err e) × (s.received ≡ []))
  list_delivers c reg {s} h steps over =
      let all = received_all (list db now c).0 steps over in
      elim (list-Implements db sql now c reg h).1 [
        | inl (es, unique, view, read) ↦ inl (es, unique, view, all ∙ ap listed read)
        | inr (e, refused, failed) ↦ inr (e, failed, all ∙ ap listed failed)
      ]
