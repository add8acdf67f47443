-- ===== src/DnsServer/Tests.antt =====
-- A small catalog of zones, over the library of Authority/Split/Fixtures.antt.
use swandns.Prelude.{List, ◌≡◌, refl, some, [], ◌∷◌, ok, err, ◌>>=◌, returned, All}
use swandns.Sqlite.Memory.{memory}
use swandns.Repository.Fixtures.{one}
use swandns.Net.{v4}
use swandns.Dns.{a, in_class, Record}
use swandns.Dns.Fixtures.{ZoneName, loopback, net, names, names-IsNames}
use swandns.Util.{bad_name, render_record_name, create_record_data}
use swandns.Authority.{primary}
use swandns.Authority.Split.{SplitAuthority}
use swandns.Authority.Split.Fixtures.{library}
use swandns.DnsServer.{add_records, add_zones}
use swandns.DnsServer.Fixtures.{
  Zones, builder, forward, zone, bad_zone, builder-IsInMemory, find_zone, builder-IsCatalog,
}
use swandns.DnsServer.Static.{Answers}
use swandns.DnsServer.Served.{zone_is_served}
use swandns.DnsServer.Zones.{collect, static_of, upsert_all}
use swandns.DnsServer.Catalog.{zone_entry, add_zones_lem}

catalog_runs :
    (add_zones net names library builder [] (zone ∷ bad_zone ∷ []) []
      ≡ returned (err (bad_name "nowhere")))
    × (add_zones net names library builder [] (zone ∷ []) []
        ≡ returned (
            ok (
              (
                ZoneName.root,
                record {
                  origin = ZoneName.root;
                  in_memory_authority =
                      record {
                        name = ZoneName.www;
                        rr_type = a;
                        dns_class = in_class;
                        ttl = 30;
                        rdata = some (a (loopback 4));
                      }
                      ∷ [];
                  sqlite_authority = record { origin = ZoneName.root; zone_type = primary };
                  forward_authority = 0;
                },
              )
              ∷ [])))
unfolding add_zones render_record_name create_record_data swandns.Net.Reading.parse_ip
    swandns.Net.Digits.read_number
catalog_runs = (refl, refl)

add_zones_lem_example :
    add_zones net names library builder [] (zone ∷ []) []
    ≡ returned (
        collect (zone_entry net names library builder forward []) (zone ∷ []) >>= λ entries.
        ok (upsert_all builder entries []))
add_zones_lem_example =
    add_zones_lem net names library builder forward names-IsNames (λ name servers. refl) []
      (zone ∷ []) []

abbrev www : Record names
www = static_of ZoneName.www (v4 (loopback 4))

abbrev www_only : List (Record names)
www_only = www ∷ []

zone_is_served_example :
    (catalog : Zones) × (add_zones net names library builder [] (zone ∷ []) []
      ≡ returned (ok catalog))
    × (self : SplitAuthority names library) × (find_zone catalog ZoneName.root ≡ some self)
    × All (Answers memory net names library self tt one) www_only
unfolding render_record_name create_record_data add_records swandns.Util.parse_ip
    swandns.Net.Reading.parse_ip swandns.Net.Digits.read_number
zone_is_served_example =
    zone_is_served memory net names names-IsNames library builder builder-IsInMemory find_zone
      builder-IsCatalog forward (λ name servers. refl) [] [] [] zone ZoneName.root www_only [] [] []
      tt one refl refl refl refl refl tt
