-- ===== src/Authority/Split/Fixtures.antt =====
-- A library of authorities over the names of Dns/Fixtures.antt, for the tests: static records are a
-- list, and the upstream servers have no answer.
use swandns.Prelude.{ℕ, Bool, ◌&&◌, List, [], ◌∷◌, ◌==◌, if◌then◌else◌, Result, ok, err}
use swandns.Dns.{RecordType, Record}
use swandns.Dns.Fixtures.{ZoneName, names}
use swandns.Authority.{LookupError, other}
use swandns.Authority.Split.{Library}

abbrev pub is_for : ZoneName → RecordType → Record names → Bool
is_for name rtype r =
    names.show_lower r.name == names.show_lower name
    && names.show_type r.rr_type == names.show_type rtype

abbrev pub records_for : ZoneName → RecordType → List (Record names) → List (Record names)
records_for name rtype [] = []
records_for name rtype (r ∷ rs) =
    let rest = records_for name rtype rs in if is_for name rtype r then r ∷ rest else rest

abbrev pub found : List (Record names) → Result LookupError (List (Record names))
found [] = err (other 0)
found (r ∷ rs) = ok (r ∷ rs)

abbrev pub library : Library names
library = record {
  Options = Unit;
  InMemory = List (Record names);
  AuthLookup = List (Record names);
  Forward = ℕ;
  in_memory_lookup = λ static name rtype options. found (records_for name rtype static);
  unwrap_records = λ rs. rs;
  forward_lookup = λ code name rtype options. err (other code);
}
