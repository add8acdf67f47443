-- ===== src/Authority.antt =====
-- The authorities that answer DNS queries: src/sqlite_authority.rs over the repository, and
-- src/split_authority.rs over it and two authorities of the DNS library, which are parameters.
-- `unwrap` panics; the connection is passed along.
pub mod Database
pub mod Upserted
mod Tests
pub mod Split
use Prim.Native.String.{String}
use swandns.Prelude.{
  ℕ, Bool, true, false, Option, none, some, List, [], ◌∷◌, Result, ok, err, Outcome, returned,
  panicked, and_then, unwrap, unwrap_some,
}
use swandns.Prelude.Text.{strip_dot}
use swandns.Messages.{RecordReply}
use swandns.Sqlite.{SqlError, Engine}
use swandns.Repository
use swandns.Net.{AddressText}
use swandns.Dns.{RecordType, in_class, Names, Record, Lookup}
use swandns.Util.{create_record_data}

pub data ResponseCode : Type 0 where
  nxdomain not_imp : ResponseCode

-- `other` is an error of the DNS library's own.
pub data LookupError : Type 0 where
  response_code : ResponseCode → LookupError
  io : String → LookupError
  other : ℕ → LookupError

pub data ZoneType : Type 0 where
  primary forward : ZoneType

abbrev pub nsec_error : LookupError
nsec_error = io "Getting NSEC records is unimplemented"

-- `RequestInfo`: the query of a request
pub record Question (dns : Names) : Type 0 where
  pub name : dns.LowerName
  pub query_type : RecordType

module _ (net : AddressText) (dns : Names) where
  -- a record of the database as a DNS record, and the lookup that returns it
  unfoldable pub dns_lookup :
      dns.LowerName → RecordType → RecordReply → Outcome (Result LookupError (Lookup dns))
  dns_lookup name rtype db_record = unwrap_some (dns.parse_name db_record.name) (λ record_name.
      unwrap_some (dns.parse_type db_record.type) (λ rr_type.
        and_then (create_record_data net dns db_record.content) (λ made. unwrap made (λ rdata.
          unwrap_some (dns.into_name name) (λ query_name. returned (
            ok (record {
              query_name = query_name;
              query_type = rtype;
              records =
                  record {
                    name = record_name;
                    rr_type = rr_type;
                    dns_class = in_class;
                    ttl = db_record.ttl;
                    rdata = rdata;
                  }
                  ∷ [];
              valid_for = 30;
            })))))))

  unfoldable pub answer_from :
      dns.LowerName
      → RecordType
      → Result SqlError RecordReply
      → Outcome (Result LookupError (Lookup dns))
  unfolding dns_lookup
  answer_from name rtype (err _) = returned (err (response_code nxdomain))
  answer_from name rtype (ok db_record) = dns_lookup name rtype db_record

module _ (db : Engine) (net : AddressText) (dns : Names) where
  lookup_stripped :
      dns.LowerName
      → RecordType
      → Option String
      → db.Conn
      → Outcome (Result LookupError (Lookup dns)) × db.Conn
  unfolding answer_from
  lookup_stripped name rtype none c = (panicked, c)
  lookup_stripped name rtype (some name_param) c =
      let (records_result, c') =
        Repository.find_unique db (record { name = name_param; type = dns.show_type rtype }) c in
      (answer_from net dns name rtype records_result, c')

  -- `SqliteAuthority::lookup`
  unfoldable pub sqlite_lookup :
      dns.LowerName → RecordType → db.Conn → Outcome (Result LookupError (Lookup dns)) × db.Conn
  unfolding lookup_stripped
  sqlite_lookup name rtype c = lookup_stripped name rtype (strip_dot (dns.show_lower name)) c

  -- `SqliteAuthority::search`
  unfoldable pub sqlite_search :
      Question dns → db.Conn → Outcome (Result LookupError (Lookup dns)) × db.Conn
  unfolding sqlite_lookup
  sqlite_search request c = sqlite_lookup request.name request.query_type c

-- `SqliteAuthority`, but for the repository, which is the connection that is passed along.
pub record SqliteAuthority (dns : Names) : Type 0 where
  pub origin : dns.LowerName
  pub zone_type : ZoneType

-- `SqliteAuthority::zone_type` and `origin`
unfoldable pub zone_type : {dns : Names} → SqliteAuthority dns → ZoneType
zone_type self = self.zone_type

unfoldable pub origin : {dns : Names} → SqliteAuthority dns → dns.LowerName
origin self = self.origin

-- What `SqliteAuthority` answers to zone transfers, updates and NSEC.
unfoldable pub is_axfr_allowed : Bool
is_axfr_allowed = false

unfoldable pub update : Result ResponseCode Bool
update = err not_imp

unfoldable pub get_nsec_records : (dns : Names) → dns.LowerName → Result LookupError (Lookup dns)
get_nsec_records dns name = err nsec_error
