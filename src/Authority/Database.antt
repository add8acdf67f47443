-- ===== src/Authority/Database.antt =====
-- How `SqliteAuthority::lookup` (src/sqlite_authority.rs) answers from the registry.
use mathlib.Core.Path.{subst}
use swandns.Prelude.{
  refl, sym, Option, Option-cases, Result, Outcome, ℕ, String, ◌≡◌, ap, ◌⊎◌, inl, inr, none, some,
  List, [], ◌∷◌, ok, err, returned, panicked, arith,
}
use swandns.Prelude.Text.{strip_dot}
use swandns.Messages.{RecordReply}
use swandns.Sqlite.{Row, SqlError, Engine, IsSqlite}
use swandns.Repository.Entries.{Entry, Registry}
use swandns.Repository.Refinement.{Implements, answer, key_query, find_unique-Implements}
use swandns.Net.{IpAddr, AddressText}
use swandns.Dns.{RecordType, in_class, Names, IsNames, Lookup}
use swandns.Util.Records.{
  rdata, create_record_data-ok, create_record_data-err, create_record_data_lem,
}
use swandns.Authority.{
  LookupError, nxdomain, response_code, dns_lookup, answer_from, lookup_stripped, sqlite_lookup,
}

-- One answer: the record for an address, under the name and the type of the query.
abbrev pub lookup_of : {dns : Names} → RecordType → dns.Name → ℕ → IpAddr → dns.Name → Lookup dns
lookup_of rtype record_name ttl ip query_name = record {
  query_name = query_name;
  query_type = rtype;
  records =
      record {
        name = record_name;
        rr_type = rtype;
        dns_class = in_class;
        ttl = ttl;
        rdata = some (rdata ip);
      }
      ∷ [];
  valid_for = 30;
}

-- What a query is answered from the entry of its key: without one, NXDOMAIN; otherwise one record
-- with the name, the type, the address and the time-to-live of the entry, if its texts can be
-- parsed, and a panic if one of them cannot.
abbrev pub AnswersEntry :
    {T : Type 0} (net : AddressText) (dns : Names)
    → dns.LowerName
    → RecordType
    → Option (Entry T)
    → Outcome (Result LookupError (Lookup dns))
    → Type 0
AnswersEntry net dns name rtype none r = r ≡ returned (err (response_code nxdomain))
AnswersEntry net dns name rtype (some e) r =
    ((record_name : dns.Name) × (rr_type : RecordType) × (ip : IpAddr) × (query_name : dns.Name)
      × (dns.parse_name e.name ≡ some record_name)
      × (dns.parse_type e.type ≡ some rr_type)
      × (net.parse_ip e.content ≡ some ip)
      × (dns.into_name name ≡ some query_name)
      × (r
          ≡ returned (
              ok (record {
                query_name = query_name;
                query_type = rtype;
                records =
                    record {
                      name = record_name;
                      rr_type = rr_type;
                      dns_class = in_class;
                      ttl = e.ttl;
                      rdata = some (rdata ip);
                    }
                    ∷ [];
                valid_for = 30;
              }))))
    ⊎ (((dns.parse_name e.name ≡ none)
          ⊎ (dns.parse_type e.type ≡ none)
          ⊎ (net.parse_ip e.content ≡ none))
        × (r ≡ panicked))

module _ (net : AddressText) (dns : Names) (h : IsNames net dns) where
  pub dns_lookup-ok :
      (name : dns.LowerName) (rtype : RecordType) (r : RecordReply) (record_name : dns.Name)
      (ip : IpAddr)
      → dns.parse_name r.name ≡ some record_name
      → dns.parse_type r.type ≡ some rtype
      → net.parse_ip r.content ≡ some ip
      → dns_lookup net dns name rtype r
        ≡ returned (ok (lookup_of rtype record_name r.ttl ip (h.into_name name).0))
  unfolding dns_lookup
  dns_lookup-ok name rtype r record_name ip named typed addressed =
      rw
        (named, typed, create_record_data-ok net dns h r.content ip addressed, (h.into_name name).1)

  pub dns_lookup-panicked :
      (name : dns.LowerName) (rtype : RecordType) (r : RecordReply)
      → net.parse_ip r.content ≡ none
      → dns_lookup net dns name rtype r ≡ panicked
  unfolding dns_lookup
  dns_lookup-panicked name rtype r bad =
      ground (arith, create_record_data-err net dns h r.content bad)

module _ (db : Engine) (sql : IsSqlite db) (net : AddressText) (dns : Names)
    (h : IsNames net dns) where
  answer_from-AnswersEntry :
      (name : dns.LowerName) (rtype : RecordType) (o : Option (Entry db.Time))
      → AnswersEntry net dns name rtype o (answer_from net dns name rtype (answer db o))
  unfolding answer_from dns_lookup
  answer_from-AnswersEntry name rtype none = refl
  answer_from-AnswersEntry name rtype (some e) = elim (Option-cases (dns.parse_name e.name)) [
    | inl bad ↦ inr (inl bad, rw bad)
    | inr (record_name, named) ↦ elim (Option-cases (dns.parse_type e.type)) [
      | inl bad ↦ inr (inr (inl bad), rw (named, bad))
      | inr (rr_type, typed) ↦ elim (create_record_data_lem net dns h e.content) [
        | inr (bad, made) ↦ inr (inr (inr bad), rw (named, typed, made))
        | inl (ip, addressed, made) ↦
            let (query_name, lower) = h.into_name name in
            inl (
              record_name,
              rr_type,
              ip,
              query_name,
              named,
              typed,
              addressed,
              lower,
              rw (named, typed, made, lower),
            )
      ]
    ]
  ]

  lookup_stripped_lem :
      (name : dns.LowerName) (rtype : RecordType) (key : String) (c : db.Conn)
      (reg : Registry db.Time)
      → Implements db c reg
      → Implements db (lookup_stripped db net dns name rtype (some key) c).1 reg
        × (((lookup_stripped db net dns name rtype (some key) c).0
              ≡ answer_from net dns name rtype (answer db (reg key (dns.show_type rtype))))
            ⊎ ((x : SqlError) × ((db.query (key_query db key (dns.show_type rtype)) c).0 ≡ err x)
                × ((lookup_stripped db net dns name rtype (some key) c).0
                    ≡ returned (err (response_code nxdomain)))))
  unfolding lookup_stripped
  lookup_stripped_lem name rtype key c reg k =
      let (kept, found) =
        find_unique-Implements db sql (record { name = key; type = dns.show_type rtype }) c reg k in
      (
        kept,
        elim found [
          | inl e ↦ inl (ap (answer_from net dns name rtype) e)
          | inr (x, failed, e) ↦ inr (x, failed, rw e)
        ],
      )

  -- From the entry whose name is the query's name, in lower case and without its last dot.
  pub sqlite_lookup-answer_from :
      (name : dns.LowerName) (rtype : RecordType) (key : String) (c : db.Conn)
      (reg : Registry db.Time)
      → strip_dot (dns.show_lower name) ≡ some key
      → Implements db c reg
      → Implements db (sqlite_lookup db net dns name rtype c).1 reg
        × (((sqlite_lookup db net dns name rtype c).0
              ≡ answer_from net dns name rtype (answer db (reg key (dns.show_type rtype))))
            ⊎ ((x : SqlError) × ((db.query (key_query db key (dns.show_type rtype)) c).0 ≡ err x)
                × ((sqlite_lookup db net dns name rtype c).0
                    ≡ returned (err (response_code nxdomain)))))
  unfolding sqlite_lookup
  sqlite_lookup-answer_from name rtype key c reg stripped k =
      rw stripped (lookup_stripped_lem name rtype key c reg k)

  -- Over SQLite, a query leaves the registry alone. It is answered from the entry whose name is the
  -- query's name, in lower case and without its last dot, and whose type is the query's: with one
  -- record of the entry's address and time-to-live, or with a panic if a text of the entry cannot
  -- be parsed. When there is no such entry, or the engine fails, the answer is NXDOMAIN. (The name
  -- is printed with a last dot, and the DNS library reads addresses as the standard library does.)
  pub sqlite_lookup_lem :
      (name : dns.LowerName) (rtype : RecordType) (key : String) (c : db.Conn)
      (reg : Registry db.Time)
      → strip_dot (dns.show_lower name) ≡ some key
      → Implements db c reg
      → Implements db (sqlite_lookup db net dns name rtype c).1 reg
        × (AnswersEntry net dns name rtype
              (reg key (dns.show_type rtype))
              (sqlite_lookup db net dns name rtype c).0
            ⊎ ((x : SqlError) × ((db.query (key_query db key (dns.show_type rtype)) c).0 ≡ err x)
                × ((sqlite_lookup db net dns name rtype c).0
                    ≡ returned (err (response_code nxdomain)))))
  sqlite_lookup_lem name rtype key c reg stripped k =
      let (kept, found) = sqlite_lookup-answer_from name rtype key c reg stripped k in
      let o = reg key (dns.show_type rtype) in
      (
        kept,
        elim found [
          | inl e ↦ inl (
              subst (AnswersEntry net dns name rtype o) (sym e)
                (answer_from-AnswersEntry name rtype o))
          | inr failed ↦ inr failed
        ],
      )

  -- With an engine that answers.
  pub sqlite_lookup-answered :
      (name : dns.LowerName) (rtype : RecordType) (key : String) (c : db.Conn)
      (reg : Registry db.Time) (rs : List (Row db.Value))
      → strip_dot (dns.show_lower name) ≡ some key
      → Implements db c reg
      → (db.query (key_query db key (dns.show_type rtype)) c).0 ≡ ok rs
      → (sqlite_lookup db net dns name rtype c).0
        ≡ answer_from net dns name rtype (answer db (reg key (dns.show_type rtype)))
  sqlite_lookup-answered name rtype key c reg rs stripped k answered =
      elim (sqlite_lookup-answer_from name rtype key c reg stripped k).1 [
        | inl e ↦ e
        | inr (x, failed, _) ↦ cc
      ]
