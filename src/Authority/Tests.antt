-- ===== src/Authority/Tests.antt =====
-- The authorities at a concrete table, zone and name server.
use swandns.Prelude.{
  ℕ, ◌^◌, ◌<◌, ◌≡◌, refl, ◌⊎◌, none, some, [], ◌∷◌, ok, err, returned, panicked, false, arith,
}
use swandns.Prelude.Text.{strip_dot, to_lower, IsLower}
use swandns.Sqlite.{SqlError, answers}
use swandns.Sqlite.Memory.{Database, memory, memory-IsSqlite}
use swandns.Repository
use swandns.Repository.Entries.{Entry, put, find}
use swandns.Repository.Table.{encode}
use swandns.Repository.Refinement.{Implements, key_query}
use swandns.Repository.Fixtures.{entry, empty, nothing, empty-Implements, one, only, one-Implements}
use swandns.Net.{v4}
use swandns.Dns.{a, Lookup}
use swandns.Dns.Fixtures.{ZoneName, loopback, net, names, names-IsNames}
use swandns.Util.{create_record_data}
use swandns.Authority.{primary, other, response_code, nxdomain, Question, sqlite_lookup}
use swandns.Authority.Database.{lookup_of, AnswersEntry, sqlite_lookup_lem}
use swandns.Authority.Upserted.{upserted_is_served, upserted_text_panics, upper_case_is_not_served}
use swandns.Authority.Split.{SplitAuthority, from_lookup, split_search, iter, is_empty}
use swandns.Authority.Split.Fixtures.{library}
use swandns.Authority.Split.Order.{
  records_of, resolve, HasDelegate, split_search-HasDelegate, split_search_lem,
}

-- a table with one entry, put into the empty registry
abbrev holding : Entry ℕ → Database
holding e = record { table = encode memory e ∷ []; is_broken = false; version = 1 }

holding-Implements : (e : Entry ℕ) → e.ttl < 2 ^ 32 → Implements memory (holding e) (put e nothing)
holding-Implements e fits = record {
  entries = e ∷ [];
  stored = refl;
  unique = unfold find in (refl, tt);
  small = (fits, tt);
  view = λ name type. unfold find in refl;
}

dns_runs : Unit {0}
unfolding sqlite_lookup strip_dot answers split_search iter is_empty
dns_runs = tt

stripped : strip_dot "foo.example.com." ≡ some "foo.example.com"
unfolding strip_dot
stripped = refl

abbrev foo_answer : Lookup names
foo_answer = lookup_of a ZoneName.foo 30 (v4 (loopback 3)) ZoneName.foo

sqlite_lookup_example :
    (sqlite_lookup memory net names ZoneName.foo a one).0 ≡ returned (ok foo_answer)
unfolding dns_runs Repository.find_unique create_record_data swandns.Net.Reading.parse_ip
    swandns.Net.Digits.read_number
sqlite_lookup_example = refl

sqlite_lookup_lem_example :
    Implements memory (sqlite_lookup memory net names ZoneName.foo a one).1 only
    × (AnswersEntry net names ZoneName.foo a
          (only "foo.example.com" "A")
          (sqlite_lookup memory net names ZoneName.foo a one).0
        ⊎ ((x : SqlError) × ((memory.query (key_query memory "foo.example.com" "A") one).0 ≡ err x)
            × ((sqlite_lookup memory net names ZoneName.foo a one).0
                ≡ returned (err (response_code nxdomain)))))
sqlite_lookup_lem_example =
    sqlite_lookup_lem memory memory-IsSqlite net names names-IsNames ZoneName.foo a
      "foo.example.com" one only stripped one-Implements

upserted_is_served_example :
    (sqlite_lookup memory net names ZoneName.foo a (holding entry)).0 ≡ returned (ok foo_answer)
unfolding answers names-IsNames swandns.Net.Reading.parse_ip swandns.Net.Digits.read_number
upserted_is_served_example =
    upserted_is_served memory memory-IsSqlite net names names-IsNames entry (holding entry) nothing
      _ ZoneName.foo a ZoneName.foo (v4 (loopback 3)) (holding-Implements entry (omega arith))
      stripped refl refl refl refl refl

abbrev wrong : Entry ℕ
wrong = record entry { content = "localhost" }

upserted_text_panics_example :
    (sqlite_lookup memory net names ZoneName.foo a (holding wrong)).0 ≡ panicked
unfolding answers swandns.Net.Reading.parse_ip swandns.Net.Digits.read_number
upserted_text_panics_example =
    upserted_text_panics memory memory-IsSqlite net names names-IsNames wrong (holding wrong)
      nothing _ ZoneName.foo a (holding-Implements wrong (omega arith)) stripped refl refl refl

abbrev capital : Entry ℕ
capital = record entry { name = "Foo.example.com" }

not-IsLower : ¬ IsLower capital.name
unfolding to_lower
not-IsLower h = omega arith

upper_case_is_not_served_example :
    (sqlite_lookup memory net names ZoneName.foo a (holding capital)).0
    ≡ (sqlite_lookup memory net names ZoneName.foo a empty).0
unfolding answers
upper_case_is_not_served_example =
    upper_case_is_not_served memory memory-IsSqlite net names names-IsNames capital empty
      (holding capital) nothing _ _ ZoneName.foo a "foo.example.com" not-IsLower empty-Implements
      (holding-Implements capital (omega arith)) stripped refl refl

-- the authority of a zone with no static records
abbrev zone : SplitAuthority names library
zone = record {
  origin = ZoneName.root;
  in_memory_authority = [];
  sqlite_authority = record { origin = ZoneName.root; zone_type = primary };
  forward_authority = 7;
}

abbrev question : Question names
question = record { name = ZoneName.foo; query_type = a }

split_search-HasDelegate_example : HasDelegate (from_lookup foo_answer)
unfolding dns_runs Repository.find_unique create_record_data swandns.Net.Reading.parse_ip
    swandns.Net.Digits.read_number
split_search-HasDelegate_example =
    split_search-HasDelegate memory net names library zone question tt one (from_lookup foo_answer)
      refl

split_search_lem_example :
    Implements memory (split_search memory net names library zone question tt one).1 only
    × ((records_of (split_search memory net names library zone question tt one).0
          ≡ resolve memory net names library ZoneName.foo a
              (library.in_memory_lookup [] ZoneName.foo a tt)
              (only "foo.example.com" "A")
              (library.forward_lookup 7 ZoneName.foo a tt))
        ⊎ ((x : SqlError) × ((memory.query (key_query memory "foo.example.com" "A") one).0 ≡ err x)
            × (records_of (split_search memory net names library zone question tt one).0
                ≡ resolve memory net names library ZoneName.foo a
                    (library.in_memory_lookup [] ZoneName.foo a tt)
                    none
                    (library.forward_lookup 7 ZoneName.foo a tt))))
split_search_lem_example =
    split_search_lem memory memory-IsSqlite net names names-IsNames library zone question tt
      "foo.example.com" one only stripped one-Implements

-- Neither static nor in the database: the answer is the upstream servers'.
split_search_upstream :
    records_of (split_search memory net names library zone question tt empty).0
    ≡ returned (err (other 7))
unfolding dns_runs Repository.find_unique
split_search_upstream = refl
