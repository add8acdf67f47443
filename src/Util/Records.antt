-- ===== src/Util/Records.antt =====
-- What `create_record_data` and `render_record_name` (src/util.rs) make of the texts of a record.
use swandns.Prelude.{String, ◌≡◌, ◌⊎◌, inl, inr, none, some, Option-cases, ok, err, returned}
use swandns.Net.{IpAddr, v4, v6, AddressText}
use swandns.Dns.{RecordType, a, aaaa, Rdata, Names, IsNames}
use swandns.Util.{bad_address, create_record_data}

-- the data of a record for an address
abbrev pub rdata : IpAddr → Rdata
rdata (v4 addr) = Rdata.a addr
rdata (v6 addr) = Rdata.aaaa addr

-- the type of a record for an address
abbrev pub type_of : IpAddr → RecordType
type_of (v4 _) = a
type_of (v6 _) = aaaa

-- and the text of that type
abbrev pub type_text : IpAddr → String
type_text (v4 _) = "A"
type_text (v6 _) = "AAAA"

module _ (net : AddressText) (dns : Names) (h : IsNames net dns) where
  -- For the text of an address.
  pub create_record_data-ok :
      (value : String) (ip : IpAddr)
      → net.parse_ip value ≡ some ip
      → create_record_data net dns value ≡ returned (ok (some (rdata ip)))
  unfolding create_record_data
  create_record_data-ok value (v4 addr) e = rw (e, h.parse_a value addr e)
  create_record_data-ok value (v6 addr) e = rw (e, h.parse_aaaa value addr e)

  pub create_record_data-err :
      (value : String)
      → net.parse_ip value ≡ none
      → create_record_data net dns value ≡ returned (err (bad_address value))
  unfolding create_record_data
  create_record_data-err value e = rw e

  -- `create_record_data` never panics, as long as the DNS library reads addresses as the standard
  -- library does. It makes an A record of an IPv4 address, an AAAA record of
  -- an IPv6 address, and an error of any other text.
  pub create_record_data_lem :
      (value : String)
      → ((ip : IpAddr) × (net.parse_ip value ≡ some ip)
          × (create_record_data net dns value ≡ returned (ok (some (rdata ip)))))
        ⊎ ((net.parse_ip value ≡ none)
            × (create_record_data net dns value ≡ returned (err (bad_address value))))
  create_record_data_lem value = elim (Option-cases (net.parse_ip value)) [
    | inl bad ↦ inr (bad, create_record_data-err value bad)
    | inr (ip, good) ↦ inl (ip, good, create_record_data-ok value ip good)
  ]
