-- ===== src/DnsServer/Served.antt =====
-- From the configuration to an answer: the static records of a zone (src/dns_server.rs) are served
-- by the authority (src/split_authority.rs) that the catalog has for it.
use swandns.Prelude.{
  String, ◌≡◌, ◌≢◌, refl, ◌∙◌, Option, some, List, [], ◌∷◌, ◌++◌, Result, ok, Result-cases, inl,
  inr, returned, All, arith,
}
use swandns.Sqlite.{Engine}
use swandns.Net.{SocketAddr, AddressText}
use swandns.Dns.{Names, IsNames, Record}
use swandns.Config.{ZoneConfig}
use swandns.Util.{Error}
use swandns.Authority.{primary}
use swandns.Authority.Split.{Library, SplitAuthority}
use swandns.DnsServer.{NameServer, Builder, add_zones}
use swandns.DnsServer.Zones.{collect, static_record, insert_all, upsert_all}
use swandns.DnsServer.Catalog.{over_both, upstream_addr, zone_entry, IsForward, add_zones_lem}
use swandns.DnsServer.Static.{
  emptied, IsInMemory, insert_all-Finds, collect-All, IsStatic, static_record-IsStatic, Answers,
  Finds-AllAnswer,
}

-- the results of a list in two parts
collect-append {ℓ κ} :
    {A : Type ℓ} {B : Type κ} (f : A → Result Error B) (xs ys : List A) (us vs : List B)
    → collect f xs ≡ ok us
    → collect f ys ≡ ok vs
    → collect f (xs ++ ys) ≡ ok (us ++ vs)
collect-append f [] ys us vs e e' = ground (arith, e, e')
collect-append f (x ∷ xs) ys us vs e e' = elim (Result-cases (f x)) [
  | inr (bad, failed) ↦ cc (rw failed at e)
  | inl (u, good) ↦ elim (Result-cases (collect f xs)) [
    | inr (bad, failed) ↦ cc (rw (good, failed) at e)
    | inl (rest, collected) ↦
        let same : u ∷ rest ≡ us = ground (arith, rw (good, collected) at e) in
        rw (good, collect-append f xs ys rest vs collected e', ← same)
  ]
]

module _ {dns : Names} {lib : Library dns} (build : Builder dns lib) where
  -- A catalog has one authority for a name, the last one that was put there.
  pub record IsCatalog (find : build.Catalog → dns.LowerName → Option (SplitAuthority dns lib))
      : Type 0 where
    pub found :
        (origin : dns.LowerName) (authority : SplitAuthority dns lib) (catalog : build.Catalog)
        → find (build.upsert origin authority catalog) origin ≡ some authority
    pub others_kept :
        (origin other : dns.LowerName) (authority : SplitAuthority dns lib)
        (catalog : build.Catalog)
        → other ≢ origin
        → find (build.upsert other authority catalog) origin ≡ find catalog origin

  abbrev pub IsOther : dns.LowerName → dns.LowerName × SplitAuthority dns lib → Type 0
  IsOther origin entry = entry.0 ≢ origin

  module _ (find : build.Catalog → dns.LowerName → Option (SplitAuthority dns lib))
      (h : IsCatalog find) (origin : dns.LowerName) where
    others_kept-All :
        (entries : List (dns.LowerName × SplitAuthority dns lib)) (catalog : build.Catalog)
        → All (IsOther origin) entries
        → find (upsert_all build entries catalog) origin ≡ find catalog origin
    others_kept-All [] catalog all = refl
    others_kept-All ((other, authority) ∷ entries) catalog (differs, all) =
        others_kept-All entries (build.upsert other authority catalog) all
        ∙ h.others_kept origin other authority catalog differs

    find-upsert_all :
        (earlier later : List (dns.LowerName × SplitAuthority dns lib))
        (authority : SplitAuthority dns lib) (catalog : build.Catalog)
        → All (IsOther origin) later
        → find (upsert_all build (earlier ++ (origin, authority) ∷ later) catalog) origin
          ≡ some authority
    find-upsert_all [] later authority catalog all =
        others_kept-All later (build.upsert origin authority catalog) all
        ∙ h.found origin authority catalog
    find-upsert_all ((other, before) ∷ earlier) later authority catalog all =
        find-upsert_all earlier later authority (build.upsert other before catalog) all

module _ (db : Engine) (net : AddressText) (dns : Names) (h : IsNames net dns) (lib : Library dns)
    (build : Builder dns lib) (mem : IsInMemory build)
    (find : build.Catalog → dns.LowerName → Option (SplitAuthority dns lib))
    (cat : IsCatalog build find) (forward : dns.Name → List NameServer → lib.Forward)
    (made : IsForward net dns lib build forward) where
  abbrev pub entry_of :
      List String → ZoneConfig → Result Error (dns.LowerName × SplitAuthority dns lib)
  entry_of = zone_entry net dns lib build forward

  -- the authority of one zone
  zone_entry-ok :
      (nameservers : List String) (zone : ZoneConfig) (zone_name : dns.Name)
      (records : List (Record dns)) (servers : List SocketAddr)
      → dns.parse_name zone.name ≡ some zone_name
      → collect (static_record net dns zone_name) zone.records ≡ ok records
      → collect (upstream_addr net) nameservers ≡ ok servers
      → (self : SplitAuthority dns lib) × (entry_of nameservers zone
          ≡ ok (dns.lower zone_name, self))
        × (self.in_memory_authority ≡ insert_all build records 0 (build.empty zone_name))
  zone_entry-ok nameservers zone zone_name records servers named parsed found = (
    record {
      origin = dns.lower zone_name;
      in_memory_authority = insert_all build records 0 (build.empty zone_name);
      sqlite_authority = record { origin = dns.lower zone_name; zone_type = primary };
      forward_authority = forward zone_name (over_both servers);
    },
    rw (named, parsed, found),
    refl,
  )

  -- When everything in a configuration can be parsed, the catalog has an authority for each zone
  -- whose name no later zone has, in whatever case, and that authority answers a query for the name
  -- and type of any of the zone's static records with static records, that one among them; neither
  -- the database nor an upstream server is asked.
  pub zone_is_served :
      (nameservers : List String) (before after : List ZoneConfig) (zone : ZoneConfig)
      (zone_name : dns.Name) (records : List (Record dns)) (servers : List SocketAddr)
      (earlier later : List (dns.LowerName × SplitAuthority dns lib)) (options : lib.Options)
      (c : db.Conn)
      → dns.parse_name zone.name ≡ some zone_name
      → collect (static_record net dns zone_name) zone.records ≡ ok records
      → collect (upstream_addr net) nameservers ≡ ok servers
      → collect (entry_of nameservers) before ≡ ok earlier
      → collect (entry_of nameservers) after ≡ ok later
      → All (IsOther build (dns.lower zone_name)) later
      → (catalog : build.Catalog) × (add_zones net dns lib build nameservers
            (before ++ zone ∷ after)
            build.new_catalog
          ≡ returned (ok catalog))
        × (self : SplitAuthority dns lib) × (find catalog (dns.lower zone_name) ≡ some self)
        × All (Answers db net dns lib self options c) records
  zone_is_served nameservers before after zone zone_name records servers earlier later options c
        named parsed found first rest others =
      let (self, entry, filled) =
        zone_entry-ok nameservers zone zone_name records servers named parsed found in
      let here : collect (entry_of nameservers) (zone ∷ after)
          ≡ ok ((dns.lower zone_name, self) ∷ later) =
        rw (entry, rest) in
      let all = collect-append (entry_of nameservers) before (zone ∷ after) earlier _ first here in
      let built =
        add_zones_lem net dns lib build forward h made nameservers (before ++ zone ∷ after)
          build.new_catalog in
      let finds =
        insert_all-Finds {dns = dns} {lib = lib} build mem options records 0 (build.empty zone_name)
          (emptied zone_name)
          (collect-All IsStatic (static_record net dns zone_name)
            (static_record-IsStatic net dns zone_name) zone.records records parsed) in
      (
        upsert_all build (earlier ++ (dns.lower zone_name, self) ∷ later) build.new_catalog,
        built ∙ rw all,
        self,
        find-upsert_all build find cat (dns.lower zone_name) earlier later self build.new_catalog
            others,
        Finds-AllAnswer db net dns lib build self options c records (rw filled finds),
      )
