-- ===== src/DnsServer/Zones.antt =====
-- What the loops of `DnsServer::run` (src/dns_server.rs) build, described without them: a record
-- for each static entry, an authority for each zone.
use swandns.Prelude.{
  ℕ, ◌+◌, String, ◌≡◌, refl, ap, ◌∙◌, inl, inr, some, Option-cases, List, [], ◌∷◌, Result, ok, err,
  ◌>>=◌, Result-cases, returned,
}
use swandns.Net.{IpAddr, v4, v6, AddressText}
use swandns.Dns.{in_class, Names, IsNames, Record}
use swandns.Config.{RecordConfig}
use swandns.Util.{Error, parse_ip, get_ip_addr_record_type, render_record_name}
use swandns.Util.Records.{rdata, type_of, create_record_data-ok}
use swandns.Authority.Split.{Library, SplitAuthority}
use swandns.DnsServer.{Builder, add_records}

-- the results of all items, or the first error
abbrev pub collect {ℓ κ} :
    {A : Type ℓ} {B : Type κ} → (A → Result Error B) → List A → Result Error (List B)
collect f [] = ok []
collect f (x ∷ xs) = f x >>= λ y. collect f xs >>= λ ys. ok (y ∷ ys)

parse_ip-ok :
    (net : AddressText) (value : String) (ip : IpAddr)
    → net.parse_ip value ≡ some ip
    → parse_ip net value ≡ ok ip
unfolding parse_ip
parse_ip-ok net value ip e = rw e

get_ip_addr_record_type-ok : (ip : IpAddr) → get_ip_addr_record_type ip ≡ ok (type_of ip)
unfolding get_ip_addr_record_type
get_ip_addr_record_type-ok (v4 addr) = refl
get_ip_addr_record_type-ok (v6 addr) = refl

collect-cons {ℓ κ} :
    {A : Type ℓ} {B : Type κ} (rest : Result Error (List A)) (x : A) (f : List A → B)
    → (rest >>= λ xs. ok (f (x ∷ xs))) ≡ (rest >>= (λ xs. ok (x ∷ xs)) >>= λ xs. ok (f xs))
collect-cons (ok xs) x f = refl
collect-cons (err e) x f = refl

abbrev pub static_of : {dns : Names} → dns.Name → IpAddr → Record dns
static_of name ip = record {
  name = name;
  rr_type = type_of ip;
  dns_class = in_class;
  ttl = 30;
  rdata = some (rdata ip);
}

module _ (net : AddressText) (dns : Names) where
  -- the record of a static entry
  abbrev pub static_record : dns.Name → RecordConfig → Result Error (Record dns)
  static_record zone_name r = render_record_name dns r.key zone_name >>= λ name.
      parse_ip net r.value >>= λ ip. ok (static_of name ip)

module _ {dns : Names} {lib : Library dns} (build : Builder dns lib) where
  -- insertion in order, with serial numbers from `i` on
  abbrev pub insert_all : List (Record dns) → ℕ → lib.InMemory → lib.InMemory
  insert_all [] i authority = authority
  insert_all (r ∷ rs) i authority = insert_all rs (i + 1) (build.insert r i authority)

  abbrev pub upsert_all :
      List (dns.LowerName × SplitAuthority dns lib) → build.Catalog → build.Catalog
  upsert_all [] catalog = catalog
  upsert_all ((origin, authority) ∷ zones) catalog =
      upsert_all zones (build.upsert origin authority catalog)

module _ (net : AddressText) (dns : Names) (h : IsNames net dns) (lib : Library dns)
    (build : Builder dns lib) where
  -- The loop over the static records of a zone never panics, as long as the DNS library reads
  -- addresses as the standard library does. It inserts the records of all entries
  -- in order, each with the address's type and data and its position as serial number; or it
  -- returns the error of the first entry whose name or address cannot be parsed.
  pub add_records_lem :
      (zone_name : dns.Name) (rs : List RecordConfig) (i : ℕ) (authority : lib.InMemory)
      → add_records net dns lib build zone_name rs i authority
        ≡ returned (
            collect (static_record net dns zone_name) rs >>= λ records.
            ok (insert_all build records i authority))
  unfolding add_records
  add_records_lem zone_name [] i authority = refl
  add_records_lem zone_name (r ∷ rs) i authority =
      elim (Result-cases (render_record_name dns r.key zone_name)) [
        | inr (x, bad) ↦ rw bad
        | inl (name, named) ↦ elim (Option-cases (net.parse_ip r.value)) [
          | inl bad ↦ unfold parse_ip in rw (named, bad)
          | inr (ip, parsed) ↦
              rw
                (
                  named,
                  parse_ip-ok net r.value ip parsed,
                  get_ip_addr_record_type-ok ip,
                  create_record_data-ok net dns h r.value ip parsed,
                )
                (add_records_lem zone_name rs (i + 1) _
                  ∙ ap returned (
                      collect-cons (collect (static_record net dns zone_name) rs)
                        (static_of name ip) (λ records. insert_all build records i authority)))
        ]
      ]
