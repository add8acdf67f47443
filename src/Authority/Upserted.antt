-- ===== src/Authority/Upserted.antt =====
-- From an Upsert to a DNS answer: src/record_repository.rs and src/sqlite_authority.rs together.
use mathlib.Core.Path.{subst}
use swandns.Prelude.{
  String, ◌≡◌, refl, sym, ap, ◌∙◌, inl, inr, true, Bool-cases, Option, none, some, List, ◌==◌,
  eq_iff, eq_refl, ok, returned, panicked,
}
use swandns.Prelude.Text.{strip_dot, append_of_strip_dot, IsLower, IsLower-of_append}
use swandns.Sqlite.{Row, Engine, IsSqlite}
use swandns.Repository.Entries.{Entry, Registry, put, merge, find-key}
use swandns.Repository.Table.{reply}
use swandns.Repository.Refinement.{Implements, answer, key_query}
use swandns.Net.{IpAddr, AddressText}
use swandns.Dns.{RecordType, Names, IsNames}
use swandns.Authority.{dns_lookup, answer_from, sqlite_lookup}
use swandns.Authority.Database.{
  lookup_of, dns_lookup-ok, dns_lookup-panicked, sqlite_lookup-answered,
}

-- What an entry has after it was put: the key, the content and the time-to-live of the new one.
record IsNew {T : Type 0} (new e : Entry T) : Type 0 where
  name : e.name ≡ new.name
  type : e.type ≡ new.type
  content : e.content ≡ new.content
  ttl : e.ttl ≡ new.ttl

merge_keeps :
    {T : Type 0} (new : Entry T) (o : Option (Entry T))
    → ((merge new o).content ≡ new.content) × ((merge new o).ttl ≡ new.ttl)
merge_keeps new none = (refl, refl)
merge_keeps new (some old) = (refl, refl)

put_self :
    {T : Type 0} (new : Entry T) (reg : Registry T)
    → put new reg new.name new.type ≡ some (merge new (reg new.name new.type))
put_self new reg = rw (eq_refl new.name, eq_refl new.type)

put-IsNew :
    (db : Engine) (new : Entry db.Time) (c : db.Conn) (reg : Registry db.Time)
    → Implements db c (put new reg)
    → IsNew new (merge new (reg new.name new.type))
put-IsNew db new c reg k =
    let o = reg new.name new.type in
    let (same_name, same_type) =
      find-key new.name new.type k.entries (merge new o)
        (k.view new.name new.type ∙ put_self new reg) in
    record {
      name = same_name;
      type = same_type;
      content = (merge_keeps new o).0;
      ttl = (merge_keeps new o).1;
    }

module _ (db : Engine) (sql : IsSqlite db) (net : AddressText) (dns : Names)
    (h : IsNames net dns) where
  answered_put :
      (new : Entry db.Time) (c : db.Conn) (reg : Registry db.Time) (rs : List (Row db.Value))
      (name : dns.LowerName) (rtype : RecordType)
      → Implements db c (put new reg)
      → strip_dot (dns.show_lower name) ≡ some new.name
      → new.type ≡ dns.show_type rtype
      → (db.query (key_query db new.name (dns.show_type rtype)) c).0 ≡ ok rs
      → (sqlite_lookup db net dns name rtype c).0
        ≡ dns_lookup net dns name rtype (reply db true (merge new (reg new.name new.type)))
  unfolding answer_from
  answered_put new c reg rs name rtype k stripped typed answered =
      sqlite_lookup-answered db sql net dns h name rtype new.name c (put new reg) rs stripped k
        answered
      ∙ ap (λ o. answer_from net dns name rtype (answer db o))
          (ap (put new reg new.name) (sym typed) ∙ put_self new reg)

  -- Over SQLite, an entry that has been upserted with the text of an address is served: a query for
  -- its name and type, to an engine that answers, returns the one record of that address with the
  -- entry's time-to-live. (The entry's name is the query's, in lower case and without the last dot;
  -- the DNS library parses it, and the type as the query's.)
  pub upserted_is_served :
      (new : Entry db.Time) (c : db.Conn) (reg : Registry db.Time) (rs : List (Row db.Value))
      (name : dns.LowerName) (rtype : RecordType) (record_name : dns.Name) (ip : IpAddr)
      → Implements db c (put new reg)
      → strip_dot (dns.show_lower name) ≡ some new.name
      → new.type ≡ dns.show_type rtype
      → dns.parse_name new.name ≡ some record_name
      → dns.parse_type new.type ≡ some rtype
      → net.parse_ip new.content ≡ some ip
      → (db.query (key_query db new.name (dns.show_type rtype)) c).0 ≡ ok rs
      → (sqlite_lookup db net dns name rtype c).0
        ≡ returned (ok (lookup_of rtype record_name new.ttl ip (h.into_name name).0))
  upserted_is_served new c reg rs name rtype record_name ip k stripped typed pn pt pi answered =
      let e = merge new (reg new.name new.type) in
      let new' = put-IsNew db new c reg k in
      answered_put new c reg rs name rtype k stripped typed answered
      ∙ dns_lookup-ok net dns h name rtype (reply db true e) record_name ip
          (ap dns.parse_name new'.name ∙ pn) (ap dns.parse_type new'.type ∙ pt)
          (ap net.parse_ip new'.content ∙ pi)
      ∙ ap (λ ttl. returned (ok (lookup_of rtype record_name ttl ip (h.into_name name).0))) new'.ttl

  -- Over SQLite: nothing checks the value of an Upsert. After one whose value is no address, the
  -- query for its name and type panics, if the engine answers it.
  pub upserted_text_panics :
      (new : Entry db.Time) (c : db.Conn) (reg : Registry db.Time) (rs : List (Row db.Value))
      (name : dns.LowerName) (rtype : RecordType)
      → Implements db c (put new reg)
      → strip_dot (dns.show_lower name) ≡ some new.name
      → new.type ≡ dns.show_type rtype
      → net.parse_ip new.content ≡ none
      → (db.query (key_query db new.name (dns.show_type rtype)) c).0 ≡ ok rs
      → (sqlite_lookup db net dns name rtype c).0 ≡ panicked
  upserted_text_panics new c reg rs name rtype k stripped typed bad answered =
      let e = merge new (reg new.name new.type) in
      let new' = put-IsNew db new c reg k in
      answered_put new c reg rs name rtype k stripped typed answered
      ∙ dns_lookup-panicked net dns h name rtype (reply db true e)
          (ap net.parse_ip new'.content ∙ bad)

  -- the name under which a query is looked up is in lower case
  key-IsLower :
      (name : dns.LowerName) (key : String)
      → strip_dot (dns.show_lower name) ≡ some key
      → IsLower key
  key-IsLower name key stripped =
      IsLower-of_append key "."
        (subst IsLower (append_of_strip_dot _ key stripped) (h.show_lower-IsLower name))

  put_other :
      (new : Entry db.Time) (reg : Registry db.Time) (key type : String)
      → ¬ IsLower new.name
      → IsLower key
      → put new reg key type ≡ reg key type
  put_other new reg key type upper low = elim (Bool-cases (new.name == key)) [
    | inl same ↦ absurd (upper (rw ((eq_iff new.name key).0 same) low))
    | inr other ↦ rw other
  ]

  -- Over SQLite, an entry whose name has an upper-case letter is never served: between a table with
  -- it and one without it, no query of any name and type, answered by the engine, has different
  -- answers.
  pub upper_case_is_not_served :
      (new : Entry db.Time) (c c' : db.Conn) (reg : Registry db.Time) (rs rs' : List (Row db.Value))
      (name : dns.LowerName) (rtype : RecordType) (key : String)
      → ¬ IsLower new.name
      → Implements db c reg
      → Implements db c' (put new reg)
      → strip_dot (dns.show_lower name) ≡ some key
      → (db.query (key_query db key (dns.show_type rtype)) c).0 ≡ ok rs
      → (db.query (key_query db key (dns.show_type rtype)) c').0 ≡ ok rs'
      → (sqlite_lookup db net dns name rtype c').0 ≡ (sqlite_lookup db net dns name rtype c).0
  upper_case_is_not_served new c c' reg rs rs' name rtype key upper k k' stripped q q' =
      let type = dns.show_type rtype in
      sqlite_lookup-answered db sql net dns h name rtype key c' (put new reg) rs' stripped k' q'
      ∙ ap (λ o. answer_from net dns name rtype (answer db o))
          (put_other new reg key type upper (key-IsLower name key stripped))
      ∙ sym (sqlite_lookup-answered db sql net dns h name rtype key c reg rs stripped k q)
