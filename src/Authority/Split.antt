-- ===== src/Authority/Split.antt =====
-- `SplitAuthority` (src/split_authority.rs): static records first, then the database, then the
-- upstream name servers. The in-memory and the forwarding authority are the DNS library's.
pub mod Order
pub mod Fixtures
use swandns.Prelude.{
  Bool, true, false, Option, none, some, List, [], ◌∷◌, Result, ok, err, Outcome, returned,
  panicked,
}
use swandns.Sqlite.{Engine}
use swandns.Net.{AddressText}
use swandns.Dns.{RecordType, Names, Record, Lookup}
use swandns.Authority.{
  ResponseCode, not_imp, LookupError, nsec_error, Question, ZoneType, forward, SqliteAuthority,
  sqlite_lookup,
}

-- What the program uses of `InMemoryAuthority` and `ForwardAuthority`. `unwrap_records` takes the
-- records out of an `AuthLookup`, and a `ForwardLookup` is the lookup that it wraps.
pub record Library (dns : Names) : Type 1 where
  pub Options : Type 0
  pub InMemory : Type 0
  pub AuthLookup : Type 0
  pub Forward : Type 0
  pub in_memory_lookup :
      InMemory → dns.LowerName → RecordType → Options → Result LookupError AuthLookup
  pub unwrap_records : AuthLookup → List (Record dns)
  pub forward_lookup :
      Forward → dns.LowerName → RecordType → Options → Result LookupError (Lookup dns)

pub record SplitLookup (dns : Names) : Type 0 where
  pub auth_lookup : Option (List (Record dns))
  pub lookup : Option (Lookup dns)

pub record SplitAuthority (dns : Names) (lib : Library dns) : Type 0 where
  pub origin : dns.LowerName
  pub in_memory_authority : lib.InMemory
  pub sqlite_authority : SqliteAuthority dns
  pub forward_authority : lib.Forward

abbrev pub is_nil {ℓ} : {A : Type ℓ} → List A → Bool
is_nil [] = true
is_nil (_ ∷ _) = false

module _ {dns : Names} where
  delegate_is_empty : Option (List (Record dns)) → Option (Lookup dns) → Outcome Bool
  delegate_is_empty (some auth_lookup) _ = returned (is_nil auth_lookup)
  delegate_is_empty none (some lookup) = returned (is_nil lookup.records)
  delegate_is_empty none none = panicked

  -- `SplitLookup::is_empty` and `iter`; without a delegate they panic
  unfoldable pub is_empty : SplitLookup dns → Outcome Bool
  unfolding delegate_is_empty
  is_empty s = delegate_is_empty s.auth_lookup s.lookup

  delegate_iter : Option (List (Record dns)) → Option (Lookup dns) → Outcome (List (Record dns))
  delegate_iter (some auth_lookup) _ = returned auth_lookup
  delegate_iter none (some lookup) = returned lookup.records
  delegate_iter none none = panicked

  unfoldable pub iter : SplitLookup dns → Outcome (List (Record dns))
  unfolding delegate_iter
  iter s = delegate_iter s.auth_lookup s.lookup

  unfoldable pub take_additionals : SplitLookup dns → Option (List (Record dns))
  take_additionals s = none

  abbrev pub from_memory : List (Record dns) → SplitLookup dns
  from_memory rs = record { auth_lookup = some rs; lookup = none }

  abbrev pub from_lookup : Lookup dns → SplitLookup dns
  from_lookup l = record { auth_lookup = none; lookup = some l }

  unfoldable pub forwarded : Result LookupError (Lookup dns) → Result LookupError (SplitLookup dns)
  forwarded (ok l) = ok (from_lookup l)
  forwarded (err e) = err e

module _ (db : Engine) (net : AddressText) (dns : Names) (lib : Library dns) where
  -- after the answer of the database
  unfoldable pub after_db :
      Result LookupError (Lookup dns)
      → Outcome (Result LookupError (Lookup dns)) × db.Conn
      → Outcome (Result LookupError (SplitLookup dns)) × db.Conn
  unfolding forwarded
  after_db forward_resolve (panicked, c) = (panicked, c)
  after_db forward_resolve (returned (ok l), c) = (returned (ok (from_lookup l)), c)
  after_db forward_resolve (returned (err _), c) = (returned (forwarded forward_resolve), c)

  -- after the answer of the static records
  unfoldable pub after_memory :
      SplitAuthority dns lib
      → dns.LowerName
      → RecordType
      → lib.Options
      → Result LookupError lib.AuthLookup
      → db.Conn
      → Outcome (Result LookupError (SplitLookup dns)) × db.Conn
  unfolding after_db
  after_memory self name rtype options (ok l) c =
      (returned (ok (from_memory (lib.unwrap_records l))), c)
  after_memory self name rtype options (err _) c =
      after_db (lib.forward_lookup self.forward_authority name rtype options)
        (sqlite_lookup db net dns name rtype c)

  -- `SplitAuthority::lookup`
  unfoldable pub split_lookup :
      SplitAuthority dns lib
      → dns.LowerName
      → RecordType
      → lib.Options
      → db.Conn
      → Outcome (Result LookupError (SplitLookup dns)) × db.Conn
  unfolding after_memory
  split_lookup self name rtype options c =
      after_memory self name rtype options
        (lib.in_memory_lookup self.in_memory_authority name rtype options) c

  -- `SplitAuthority::search`
  unfoldable pub split_search :
      SplitAuthority dns lib
      → Question dns
      → lib.Options
      → db.Conn
      → Outcome (Result LookupError (SplitLookup dns)) × db.Conn
  unfolding split_lookup
  split_search self request options c = split_lookup self request.name request.query_type options c

-- `SplitAuthority::zone_type` and `origin`
unfoldable pub zone_type : {dns : Names} {lib : Library dns} → SplitAuthority dns lib → ZoneType
zone_type self = forward

unfoldable pub origin : {dns : Names} {lib : Library dns} → SplitAuthority dns lib → dns.LowerName
origin self = self.origin

-- what it answers to zone transfers, updates and NSEC
unfoldable pub is_axfr_allowed : {dns : Names} {lib : Library dns} → SplitAuthority dns lib → Bool
is_axfr_allowed self = false

unfoldable pub update :
    {dns : Names} {lib : Library dns} → SplitAuthority dns lib → Result ResponseCode Bool
update self = err not_imp

unfoldable pub get_nsec_records :
    {dns : Names} {lib : Library dns}
    → SplitAuthority dns lib
    → dns.LowerName
    → lib.Options
    → Result LookupError (SplitLookup dns)
get_nsec_records self name options = err nsec_error
