-- ===== src/Client/Served.antt =====
-- From src/client.rs to src/sqlite_authority.rs: what the client upserts can be resolved.
use swandns.Prelude.{
  ◌^◌, ◌<◌, String, ◌≡◌, refl, sym, ap, ◌∙◌, inl, inr, some, List, Result, ok, err, Outcome,
  returned, panicked, arith,
}
use swandns.Prelude.Text.{strip_dot}
use swandns.Messages.{RecordReply, UpsertRecordRequest}
use swandns.Sqlite.{Row, Engine, IsSqlite}
use swandns.Repository.{upsert}
use swandns.Repository.Entries.{Registry, put}
use swandns.Repository.Refinement.{Implements, key_query, new_entry}
use swandns.Repository.Upserting.{insert_of, upsert-Implements}
use swandns.Net.{IpAddr, v4, v6}
use swandns.Net.Text.{std_net}
use swandns.Net.Bounds.{IsAddress}
use swandns.Net.RoundTrip.{parse_ip-show_ip}
use swandns.Util.Records.{type_of, type_text}
use swandns.Dns.{Lookup, Names, IsNames}
use swandns.Authority.{LookupError, sqlite_lookup}
use swandns.Authority.Split.{Library, SplitAuthority, from_lookup, after_db, split_search}
use swandns.Authority.Database.{lookup_of}
use swandns.Authority.Upserted.{upserted_is_served}
use swandns.Client.{update_message}

message-type : (text : String) (ip : IpAddr) → (update_message std_net text ip).type ≡ type_text ip
unfolding update_message
message-type text (v4 _) = refl
message-type text (v6 _) = refl

from_database :
    (db : Engine) {dns : Names} (lib : Library dns) (next : Result LookupError (Lookup dns))
    (p : Outcome (Result LookupError (Lookup dns)) × db.Conn) (l : Lookup dns)
    → p.0 ≡ returned (ok l)
    → (after_db db std_net dns lib next p).0 ≡ returned (ok (from_lookup l))
unfolding after_db
from_database db lib next (panicked, c) l e = cc
from_database db lib next (returned (ok k), c) l e =
    ap (λ k. returned (ok (from_lookup k))) (ground (arith, e))
from_database db lib next (returned (err x), c) l e = cc

module _ (db : Engine) (sql : IsSqlite db) (dns : Names) (h : IsNames std_net dns) where
  -- After an upsert that the server executed, and no call of another task that changed the table
  -- meanwhile, it holds the new entry.
  upserted :
      (now : db.Time) (request : UpsertRecordRequest) (between : db.Conn → db.Conn) (c : db.Conn)
      (reg : Registry db.Time) (reply : RecordReply)
      → request.ttl < 2 ^ 32
      → (Implements db (db.execute (insert_of db now request) c).1 (put (new_entry now request) reg)
          → Implements db
              (between (db.execute (insert_of db now request) c).1)
              (put (new_entry now request) reg))
      → Implements db c reg
      → (upsert db now between request c).0 ≡ ok reply
      → Implements db (upsert db now between request c).1 (put (new_entry now request) reg)
  upserted now request between c reg reply fits others k replied =
      elim (upsert-Implements db sql now request between c reg _ fits others k) [
        | inl (e, refused, failed, same) ↦ ground (arith, failed, replied)
        | inr (done, kept, answered) ↦ kept
      ]

  -- what the database answers
  message_is_looked_up :
      (now : db.Time) (ip : IpAddr) (text : String) (between : db.Conn → db.Conn) (c : db.Conn)
      (reg : Registry db.Time) (reply : RecordReply) (rs : List (Row db.Value))
      (name : dns.LowerName) (record_name : dns.Name)
      → IsAddress ip
      → (Implements db
            (db.execute (insert_of db now (update_message std_net text ip)) c).1
            (put (new_entry now (update_message std_net text ip)) reg)
          → Implements db
              (between (db.execute (insert_of db now (update_message std_net text ip)) c).1)
              (put (new_entry now (update_message std_net text ip)) reg))
      → Implements db c reg
      → (upsert db now between (update_message std_net text ip) c).0 ≡ ok reply
      → strip_dot (dns.show_lower name) ≡ some text
      → dns.show_type (type_of ip) ≡ type_text ip
      → dns.parse_type (type_text ip) ≡ some (type_of ip)
      → dns.parse_name text ≡ some record_name
      → (db.query
          (key_query db text (dns.show_type (type_of ip)))
          (upsert db now between (update_message std_net text ip) c).1).0
        ≡ ok rs
      → (sqlite_lookup db std_net dns name
          (type_of ip)
          (upsert db now between (update_message std_net text ip) c).1).0
        ≡ returned (ok (lookup_of (type_of ip) record_name 30 ip (h.into_name name).0))
  unfolding update_message
  message_is_looked_up now ip text between c reg reply rs name record_name in_range others k replied
        stripped shown typed named answered =
      upserted_is_served db sql std_net dns h (new_entry now (update_message std_net text ip)) _ reg
        rs name (type_of ip) record_name ip
        (upserted now (update_message std_net text ip) between c reg reply (omega arith) others k
          replied)
        stripped (message-type text ip ∙ sym shown) named
        (ap dns.parse_type (message-type text ip) ∙ typed) (parse_ip-show_ip ip in_range) answered

  -- The message that the client sends for its address, of IPv4 or IPv6, is served (over SQLite, and
  -- the texts of `std::net`): once the server has replied to it, if no other task changed the table
  -- meanwhile, a query of type A or AAAA for its name, for which the zone has no static record, and
  -- which the engine answers, gets the one record of that address, to live for thirty seconds. (The
  -- message's name is the query's, in lower case and without the last dot; the DNS library parses
  -- it, and writes and reads the type as `A` or `AAAA`.)
  pub message_is_served :
      (lib : Library dns) (self : SplitAuthority dns lib) (options : lib.Options)
      (missing : LookupError) (now : db.Time) (ip : IpAddr) (text : String)
      (between : db.Conn → db.Conn) (c : db.Conn) (reg : Registry db.Time) (reply : RecordReply)
      (rs : List (Row db.Value)) (name : dns.LowerName) (record_name : dns.Name)
      → lib.in_memory_lookup self.in_memory_authority name (type_of ip) options ≡ err missing
      → IsAddress ip
      → (Implements db
            (db.execute (insert_of db now (update_message std_net text ip)) c).1
            (put (new_entry now (update_message std_net text ip)) reg)
          → Implements db
              (between (db.execute (insert_of db now (update_message std_net text ip)) c).1)
              (put (new_entry now (update_message std_net text ip)) reg))
      → Implements db c reg
      → (upsert db now between (update_message std_net text ip) c).0 ≡ ok reply
      → strip_dot (dns.show_lower name) ≡ some text
      → dns.show_type (type_of ip) ≡ type_text ip
      → dns.parse_type (type_text ip) ≡ some (type_of ip)
      → dns.parse_name text ≡ some record_name
      → (db.query
          (key_query db text (dns.show_type (type_of ip)))
          (upsert db now between (update_message std_net text ip) c).1).0
        ≡ ok rs
      → (split_search db std_net dns lib self
          (record { name = name; query_type = type_of ip })
          options
          (upsert db now between (update_message std_net text ip) c).1).0
        ≡ returned
            (ok (from_lookup (lookup_of (type_of ip) record_name 30 ip (h.into_name name).0)))
  unfolding split_search
  message_is_served lib self options missing now ip text between c reg reply rs name record_name
        no_static in_range others k replied stripped shown typed named answered =
      rw no_static (
        from_database db lib (lib.forward_lookup self.forward_authority name (type_of ip) options)
          (sqlite_lookup db std_net dns name (type_of ip)
            (upsert db now between (update_message std_net text ip) c).1)
          _
          (message_is_looked_up now ip text between c reg reply rs name record_name in_range others
            k replied stripped shown typed named answered))
