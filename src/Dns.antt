-- ===== src/Dns.antt =====
-- The DNS library (hickory) as the program uses it: names, record types, record data, records and
-- lookups. Its parsers and printers are parameters, with their documented laws.
pub mod Fixtures
use swandns.Prelude.{ℕ, String, ◌≡◌, Option, none, some, List}
use swandns.Prelude.Text.{IsLower}
use swandns.Net.{Ipv4Addr, Ipv6Addr, IpAddr, v4, v6, AddressText}

-- `other` holds the code of a type that the program does not name.
pub data RecordType : Type 0 where
  a aaaa : RecordType
  other : ℕ → RecordType

pub data DnsClass : Type 0 where
  in_class : DnsClass

pub data Rdata : Type 0 where
  a : Ipv4Addr → Rdata
  aaaa : Ipv6Addr → Rdata

-- names, and what is read from texts
pub record Names : Type 1 where
  -- `Name` and `LowerName`
  pub Name : Type 0
  pub LowerName : Type 0
  pub parse_name : String → Option Name
  pub show_name : Name → String
  pub lower : Name → LowerName
  pub show_lower : LowerName → String
  pub into_name : LowerName → Option Name
  pub parse_type : String → Option RecordType
  pub show_type : RecordType → String
  -- `A::from_str`, `AAAA::from_str`
  pub parse_a : String → Option Ipv4Addr
  pub parse_aaaa : String → Option Ipv6Addr

pub record IsNames (net : AddressText) (dns : Names) : Type 0 where
  -- the texts of `A` and `AAAA` are those of the standard library
  pub parse_a :
      (s : String) (ip : Ipv4Addr) → net.parse_ip s ≡ some (v4 ip) → dns.parse_a s ≡ some ip
  pub parse_aaaa :
      (s : String) (ip : Ipv6Addr) → net.parse_ip s ≡ some (v6 ip) → dns.parse_aaaa s ≡ some ip
  -- a `LowerName` is printed in lower case, and is a name
  pub show_lower-IsLower : (n : dns.LowerName) → IsLower (dns.show_lower n)
  pub into_name : (n : dns.LowerName) → (m : dns.Name) × (dns.into_name n ≡ some m)

module _ (dns : Names) where
  pub record Record : Type 0 where
    pub name : dns.Name
    pub rr_type : RecordType
    pub dns_class : DnsClass
    pub ttl : ℕ
    pub rdata : Option Rdata

  -- `Lookup::new_with_deadline`: the query, the records, and the seconds until the deadline
  pub record Lookup : Type 0 where
    pub query_name : dns.Name
    pub query_type : RecordType
    pub records : List Record
    pub valid_for : ℕ
