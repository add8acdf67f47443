-- ===== src/Authority/Split/Order.antt =====
-- Which source answers a query to `SplitAuthority` (src/split_authority.rs).
use swandns.Prelude.{
  String, ◌≡◌, refl, ap, ◌∙◌, ◌⊎◌, inl, inr, true, Option, none, some, List, Result, ok, err,
  Outcome, returned, panicked, and_then,
}
use mathlib.Core.Path.{subst}
use swandns.Prelude.Text.{strip_dot}
use swandns.Sqlite.{SqlError, Engine, IsSqlite}
use swandns.Repository.Entries.{Entry, Registry}
use swandns.Repository.Table.{reply}
use swandns.Repository.Refinement.{Implements, answer, key_query}
use swandns.Net.{AddressText}
use swandns.Dns.{RecordType, Names, IsNames, Record, Lookup}
use swandns.Authority.{LookupError, Question, dns_lookup, answer_from, sqlite_lookup}
use swandns.Authority.Database.{sqlite_lookup-answer_from}
use swandns.Authority.Split.{
  Library, SplitLookup, SplitAuthority, is_nil, is_empty, iter, forwarded, after_db, after_memory,
  from_memory, from_lookup, split_search,
}

module _ {dns : Names} where
  -- what the server reads of an answer
  abbrev pub records_of :
      Outcome (Result LookupError (SplitLookup dns))
      → Outcome (Result LookupError (List (Record dns)))
  records_of panicked = panicked
  records_of (returned (err e)) = returned (err e)
  records_of (returned (ok s)) = and_then (iter s) (λ rs. returned (ok rs))

  -- the records of a lookup of the DNS library, or its error
  abbrev pub lookup_records :
      Result LookupError (Lookup dns) → Outcome (Result LookupError (List (Record dns)))
  lookup_records (ok l) = returned (ok l.records)
  lookup_records (err e) = returned (err e)

  -- a lookup that failed is left to the next source
  abbrev pub or_else :
      Outcome (Result LookupError (Lookup dns))
      → Result LookupError (Lookup dns)
      → Outcome (Result LookupError (List (Record dns)))
  or_else panicked next = panicked
  or_else (returned (ok l)) next = returned (ok l.records)
  or_else (returned (err _)) next = lookup_records next

  records_of-forwarded :
      (r : Result LookupError (Lookup dns)) → records_of (returned (forwarded r)) ≡ lookup_records r
  unfolding forwarded iter
  records_of-forwarded (ok l) = refl
  records_of-forwarded (err e) = refl

  -- A lookup that `SplitAuthority::lookup` returns has a delegate: neither of its methods panics,
  -- and it is empty exactly when it has no records.
  abbrev pub HasDelegate : SplitLookup dns → Type 0
  HasDelegate s =
      (rs : List (Record dns)) × (iter s ≡ returned rs) × (is_empty s ≡ returned (is_nil rs))

  memory-HasDelegate :
      (rs : List (Record dns)) (s : SplitLookup dns) → from_memory rs ≡ s → HasDelegate s
  unfolding iter is_empty
  memory-HasDelegate rs s e = subst HasDelegate e (rs, refl, refl)

  lookup-HasDelegate : (l : Lookup dns) (s : SplitLookup dns) → from_lookup l ≡ s → HasDelegate s
  unfolding iter is_empty
  lookup-HasDelegate l s e = subst HasDelegate e (l.records, refl, refl)

  forwarded-HasDelegate :
      (r : Result LookupError (Lookup dns)) (s : SplitLookup dns)
      → forwarded r ≡ ok s
      → HasDelegate s
  unfolding forwarded
  forwarded-HasDelegate (ok l) s e = lookup-HasDelegate l s (cc)
  forwarded-HasDelegate (err x) s e = cc

module _ (db : Engine) (net : AddressText) (dns : Names) (lib : Library dns) where
  after_db-records :
      (f : Result LookupError (Lookup dns))
      (p : Outcome (Result LookupError (Lookup dns)) × db.Conn)
      → (records_of (after_db db net dns lib f p).0 ≡ or_else p.0 f)
        × ((after_db db net dns lib f p).1 ≡ p.1)
  unfolding after_db iter
  after_db-records f (panicked, c) = (refl, refl)
  after_db-records f (returned (ok l), c) = (refl, refl)
  after_db-records f (returned (err _), c) = (records_of-forwarded f, refl)

  after_db-HasDelegate :
      (f : Result LookupError (Lookup dns))
      (p : Outcome (Result LookupError (Lookup dns)) × db.Conn) (s : SplitLookup dns)
      → (after_db db net dns lib f p).0 ≡ returned (ok s)
      → HasDelegate s
  unfolding after_db
  after_db-HasDelegate f (panicked, c) s e = cc
  after_db-HasDelegate f (returned (ok l), c) s e = lookup-HasDelegate l s (cc)
  after_db-HasDelegate f (returned (err _), c) s e = forwarded-HasDelegate f s (cc)

  after_memory-HasDelegate :
      (self : SplitAuthority dns lib) (name : dns.LowerName) (rtype : RecordType)
      (options : lib.Options) (r : Result LookupError lib.AuthLookup) (c : db.Conn)
      (s : SplitLookup dns)
      → (after_memory db net dns lib self name rtype options r c).0 ≡ returned (ok s)
      → HasDelegate s
  unfolding after_memory
  after_memory-HasDelegate self name rtype options (ok l) c s e =
      memory-HasDelegate (lib.unwrap_records l) s (cc)
  after_memory-HasDelegate self name rtype options (err _) c s e =
      after_db-HasDelegate (lib.forward_lookup self.forward_authority name rtype options)
        (sqlite_lookup db net dns name rtype c) s e

  -- A lookup that `SplitAuthority::search` returns always has a delegate: neither `iter` nor
  -- `is_empty` panics on it, and it is empty exactly when it has no records.
  pub split_search-HasDelegate :
      (self : SplitAuthority dns lib) (request : Question dns) (options : lib.Options) (c : db.Conn)
      (s : SplitLookup dns)
      → (split_search db net dns lib self request options c).0 ≡ returned (ok s)
      → HasDelegate s
  unfolding split_search
  split_search-HasDelegate self request options c s e =
      after_memory-HasDelegate self request.name request.query_type options
        (lib.in_memory_lookup self.in_memory_authority request.name request.query_type options) c s
        e

  -- The order of the sources, from what each of them says: a static record, if there is one; else
  -- the entry of the database, as a DNS record; else what the upstream servers answer, or their
  -- error.
  abbrev pub resolve :
      dns.LowerName
      → RecordType
      → Result LookupError lib.AuthLookup
      → Option (Entry db.Time)
      → Result LookupError (Lookup dns)
      → Outcome (Result LookupError (List (Record dns)))
  resolve name rtype (ok l) entry upstream = returned (ok (lib.unwrap_records l))
  resolve name rtype (err _) none upstream = lookup_records upstream
  resolve name rtype (err _) (some e) upstream =
      or_else (dns_lookup net dns name rtype (reply db true e)) upstream

  or_else-answer :
      (name : dns.LowerName) (rtype : RecordType) (x : LookupError) (o : Option (Entry db.Time))
      (upstream : Result LookupError (Lookup dns))
      → or_else (answer_from net dns name rtype (answer db o)) upstream
        ≡ resolve name rtype (err x) o upstream
  unfolding answer_from
  or_else-answer name rtype x none upstream = refl
  or_else-answer name rtype x (some e) upstream = refl

module _ (db : Engine) (sql : IsSqlite db) (net : AddressText) (dns : Names) (h : IsNames net dns)
    (lib : Library dns) where
  after_memory_lem :
      (self : SplitAuthority dns lib) (name : dns.LowerName) (rtype : RecordType)
      (options : lib.Options) (r : Result LookupError lib.AuthLookup) (key : String) (c : db.Conn)
      (reg : Registry db.Time)
      → strip_dot (dns.show_lower name) ≡ some key
      → Implements db c reg
      → Implements db (after_memory db net dns lib self name rtype options r c).1 reg
        × ((records_of (after_memory db net dns lib self name rtype options r c).0
              ≡ resolve db net dns lib name rtype r
                  (reg key (dns.show_type rtype))
                  (lib.forward_lookup self.forward_authority name rtype options))
            ⊎ ((x : SqlError) × ((db.query (key_query db key (dns.show_type rtype)) c).0 ≡ err x)
                × (records_of (after_memory db net dns lib self name rtype options r c).0
                    ≡ resolve db net dns lib name rtype r none
                        (lib.forward_lookup self.forward_authority name rtype options))))
  unfolding after_memory
  after_memory_lem self name rtype options (ok l) key c reg stripped k =
      (k, inl (unfold iter in refl))
  after_memory_lem self name rtype options (err x) key c reg stripped k =
      let upstream = lib.forward_lookup self.forward_authority name rtype options in
      let p = sqlite_lookup db net dns name rtype c in
      let (same, conn) = after_db-records db net dns lib upstream p in
      let (kept, found) =
        sqlite_lookup-answer_from db sql net dns h name rtype key c reg stripped k in
      (
        rw conn kept,
        elim found [
          | inl e ↦ inl (
              same
              ∙ ap (λ a. or_else a upstream) e
              ∙ or_else-answer db net dns lib name rtype x (reg key (dns.show_type rtype)) upstream)
          | inr (y, failed, e) ↦ inr (y, failed, same ∙ ap (λ a. or_else a upstream) e)
        ],
      )

  -- Over SQLite, and with addresses read as in the standard library, a query to the split authority
  -- leaves the registry alone. Its records are those of the first source that has an answer: the
  -- static records, the entry of the database with the query's name and type, the upstream servers.
  -- A database whose engine fails is passed over like one with no entry, and an entry that is no
  -- DNS record panics. (The query's name is printed with a last dot.)
  pub split_search_lem :
      (self : SplitAuthority dns lib) (request : Question dns) (options : lib.Options)
      (key : String) (c : db.Conn) (reg : Registry db.Time)
      → strip_dot (dns.show_lower request.name) ≡ some key
      → Implements db c reg
      → Implements db (split_search db net dns lib self request options c).1 reg
        × ((records_of (split_search db net dns lib self request options c).0
              ≡ resolve db net dns lib request.name request.query_type
                  (lib.in_memory_lookup self.in_memory_authority request.name request.query_type
                    options)
                  (reg key (dns.show_type request.query_type))
                  (lib.forward_lookup self.forward_authority request.name request.query_type
                    options))
            ⊎ ((x : SqlError) × ((db.query
                    (key_query db key (dns.show_type request.query_type))
                    c).0
                  ≡ err x)
                × (records_of (split_search db net dns lib self request options c).0
                    ≡ resolve db net dns lib request.name request.query_type
                        (lib.in_memory_lookup self.in_memory_authority request.name
                          request.query_type options)
                        none
                        (lib.forward_lookup self.forward_authority request.name request.query_type
                          options))))
  unfolding split_search
  split_search_lem self request options key c reg stripped k =
      after_memory_lem self request.name request.query_type options
        (lib.in_memory_lookup self.in_memory_authority request.name request.query_type options) key
        c reg stripped k
