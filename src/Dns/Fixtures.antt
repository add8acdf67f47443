-- ===== src/Dns/Fixtures.antt =====
-- A small world of names that meets `IsNames` over the texts of `std::net`, for
-- the tests.
use swandns.Prelude.{ℕ, String, ◌≡◌, refl, Option, none, some, [], ◌∷◌, ◌==◌, if◌then◌else◌, arith}
use swandns.Prelude.Text.{to_lower, IsLower}
use swandns.Net.{Ipv4Addr, Ipv6Addr, IpAddr, v4, v6, AddressText}
use swandns.Net.Bounds.{IsSegments}
use swandns.Net.Text.{std_net}
use swandns.Dns.{RecordType, a, aaaa, other, Names, IsNames}

abbrev pub loopback : ℕ → Ipv4Addr
loopback n = record { a = 127; b = 0; c = 0; d = n }

abbrev pub loopback6 : Ipv6Addr
loopback6 = record { segments = 0 ∷ 0 ∷ 0 ∷ 0 ∷ 0 ∷ 0 ∷ 0 ∷ 1 ∷ [] }

pub loopback6-IsSegments : IsSegments loopback6.segments
loopback6-IsSegments = (
  refl,
  (
    omega arith,
    (
      omega arith,
      (omega arith, (omega arith, (omega arith, (omega arith, (omega arith, (omega arith, tt)))))),
    ),
  ),
)

abbrev pub net : AddressText
net = std_net

pub data ZoneName : Type 0 where
  root foo www : ZoneName

abbrev pub show : ZoneName → String
show root = "example.com."
show foo = "foo.example.com."
show www = "www.example.com."

abbrev pub parse : String → Option ZoneName
parse s =
    if s == "example.com"
    then some root
    else if s == "foo.example.com"
    then some foo
    else if s == "www.example.com."
    then some www
    else none

abbrev pub show_type : RecordType → String
show_type a = "A"
show_type aaaa = "AAAA"
show_type (other _) = "OTHER"

abbrev pub parse_type : String → Option RecordType
parse_type s = if s == "A" then some a else if s == "AAAA" then some aaaa else none

abbrev pub only_v4 : Option IpAddr → Option Ipv4Addr
only_v4 (some (v4 ip)) = some ip
only_v4 _ = none

abbrev pub only_v6 : Option IpAddr → Option Ipv6Addr
only_v6 (some (v6 ip)) = some ip
only_v6 _ = none

abbrev pub names : Names
names = record {
  Name = ZoneName;
  LowerName = ZoneName;
  parse_name = parse;
  show_name = show;
  lower = λ n. n;
  show_lower = show;
  into_name = some;
  parse_type = parse_type;
  show_type = show_type;
  parse_a = λ s. only_v4 (net.parse_ip s);
  parse_aaaa = λ s. only_v6 (net.parse_ip s);
}

pub show-IsLower : (n : ZoneName) → IsLower (show n)
unfolding to_lower
show-IsLower root = omega arith
show-IsLower foo = omega arith
show-IsLower www = omega arith

pub parse_a-v4 :
    (s : String) (ip : Ipv4Addr)
    → net.parse_ip s ≡ some (v4 ip)
    → only_v4 (net.parse_ip s) ≡ some ip
parse_a-v4 s ip e = rw e

pub parse_aaaa-v6 :
    (s : String) (ip : Ipv6Addr)
    → net.parse_ip s ≡ some (v6 ip)
    → only_v6 (net.parse_ip s) ≡ some ip
parse_aaaa-v6 s ip e = rw e

unfoldable pub names-IsNames : IsNames net names
names-IsNames = record {
  parse_a = parse_a-v4;
  parse_aaaa = parse_aaaa-v6;
  show_lower-IsLower = show-IsLower;
  into_name = λ n. (n, refl);
}
