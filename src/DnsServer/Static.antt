-- ===== src/DnsServer/Static.antt =====
-- From src/dns_server.rs to src/split_authority.rs: what the in-memory authority of a zone finds,
-- and how the split authority answers with it.
use swandns.Prelude.{
  ℕ, ◌+◌, ◌≡◌, refl, inl, inr, List, [], ◌∷◌, Result, ok, Result-cases, returned, All, Any, arith,
}
use swandns.Sqlite.{Engine}
use swandns.Net.{IpAddr, AddressText}
use swandns.Dns.{Names, Record}
use swandns.Config.{RecordConfig}
use swandns.Util.{Error, parse_ip, render_record_name}
use swandns.Authority.Split.{Library, SplitAuthority, from_memory, split_search}
use swandns.DnsServer.{Builder}
use swandns.DnsServer.Zones.{collect, static_of, static_record, insert_all}

module _ {dns : Names} where
  -- a record as the configuration makes it
  abbrev pub IsStatic : Record dns → Type 0
  IsStatic r = (ip : IpAddr) × (r ≡ static_of r.name ip)

  -- the same, but for the case of the name
  pub record IsLike (r s : Record dns) : Type 0 where
    pub name : dns.lower s.name ≡ dns.lower r.name
    pub rr_type : s.rr_type ≡ r.rr_type
    pub dns_class : s.dns_class ≡ r.dns_class
    pub ttl : s.ttl ≡ r.ttl
    pub rdata : s.rdata ≡ r.rdata

module _ {dns : Names} {lib : Library dns} (build : Builder dns lib) where
  -- an in-memory authority with static records only
  pub data IsFilled : lib.InMemory → Type 0 where
    emptied : (zone_name : dns.Name) → IsFilled (build.empty zone_name)
    filled :
        {m : lib.InMemory} (r : Record dns) (i : ℕ)
        → IsFilled m
        → IsStatic r
        → IsFilled (build.insert r i m)

  -- A lookup finds the record, perhaps among others of its name and type.
  abbrev pub Finds : lib.Options → lib.InMemory → Record dns → Type 0
  Finds options m r =
      (l : lib.AuthLookup) × (lib.in_memory_lookup m (dns.lower r.name) r.rr_type options ≡ ok l)
      × Any (IsLike r) (lib.unwrap_records l)

  -- What the DNS library documents of an in-memory authority that is filled with addresses: a
  -- record is inserted, or updates one with its name, type and data.
  pub record IsInMemory : Type 0 where
    pub inserted :
        (options : lib.Options) (m : lib.InMemory) (r : Record dns) (i : ℕ)
        → IsFilled m
        → IsStatic r
        → Finds options (build.insert r i m) r
    pub kept :
        (options : lib.Options) (m : lib.InMemory) (r new : Record dns) (i : ℕ)
        → IsFilled m
        → IsStatic new
        → IsStatic r
        → Finds options m r
        → Finds options (build.insert new i m) r

  module _ (h : IsInMemory) (options : lib.Options) where
    insert_all-kept :
        (rs : List (Record dns)) (i : ℕ) (m : lib.InMemory) (r : Record dns)
        → IsFilled m
        → All IsStatic rs
        → IsStatic r
        → Finds options m r
        → Finds options (insert_all build rs i m) r
    insert_all-kept [] i m r full all is_static found = found
    insert_all-kept (new ∷ rs) i m r full (new_static, all) is_static found =
        insert_all-kept rs (i + 1) (build.insert new i m) r (filled new i full new_static) all
          is_static (h.kept options m r new i full new_static is_static found)

    pub insert_all-Finds :
        (rs : List (Record dns)) (i : ℕ) (m : lib.InMemory)
        → IsFilled m
        → All IsStatic rs
        → All (Finds options (insert_all build rs i m)) rs
    insert_all-Finds [] i m full all = tt
    insert_all-Finds (r ∷ rs) i m full (is_static, all) = (
      insert_all-kept rs (i + 1) (build.insert r i m) r (filled r i full is_static) all is_static
          (h.inserted options m r i full is_static),
      insert_all-Finds rs (i + 1) (build.insert r i m) (filled r i full is_static) all,
    )

-- what holds of each result
pub collect-All {ℓ κ μ} :
    {A : Type ℓ} {B : Type κ} (P : B → Type μ) (f : A → Result Error B)
    (made : (x : A) (y : B) → f x ≡ ok y → P y) (xs : List A) (ys : List B)
    → collect f xs ≡ ok ys
    → All P ys
collect-All P f made [] [] e = tt
collect-All P f made [] (y ∷ ys) e = cc
collect-All P f made (x ∷ xs) ys e = elim (Result-cases (f x)) [
  | inr (bad, failed) ↦ cc (rw failed at e)
  | inl (y, good) ↦ elim (Result-cases (collect f xs)) [
    | inr (bad, failed) ↦ cc (rw (good, failed) at e)
    | inl (rest, collected) ↦
        let e' : y ∷ rest ≡ ys = ground (arith, rw (good, collected) at e) in
        rw (← e') (made x y good, collect-All P f made xs rest collected)
  ]
]

module _ (net : AddressText) (dns : Names) where
  pub static_record-IsStatic :
      (zone_name : dns.Name) (entry : RecordConfig) (r : Record dns)
      → static_record net dns zone_name entry ≡ ok r
      → IsStatic r
  static_record-IsStatic zone_name entry r e =
      elim (Result-cases (render_record_name dns entry.key zone_name)) [
        | inr (bad, failed) ↦ cc (rw failed at e)
        | inl (name, named) ↦ elim (Result-cases (parse_ip net entry.value)) [
          | inr (bad, failed) ↦ cc (rw (named, failed) at e)
          | inl (ip, parsed) ↦
              let e' : static_of name ip ≡ r = ground (arith, rw (named, parsed) at e) in
              rw (← e') (ip, refl)
        ]
      ]

module _ (db : Engine) (net : AddressText) (dns : Names) (lib : Library dns) where
  -- A query for the record's name and type is answered by the static records, with this one.
  pub record Answers (self : SplitAuthority dns lib) (options : lib.Options) (c : db.Conn)
      (r : Record dns) : Type 0 where
    pub records : List (Record dns)
    pub answered :
        split_search db net dns lib self
          (record { name = dns.lower r.name; query_type = r.rr_type })
          options
          c
        ≡ (returned (ok (from_memory records)), c)
    pub found : Any (IsLike r) records

module _ (db : Engine) (net : AddressText) (dns : Names) (lib : Library dns)
    (build : Builder dns lib) where
  Finds-Answers :
      (self : SplitAuthority dns lib) (options : lib.Options) (c : db.Conn) (r : Record dns)
      → Finds build options self.in_memory_authority r
      → Answers db net dns lib self options c r
  unfolding split_search
  Finds-Answers self options c r (l, found, any) = record {
    records = lib.unwrap_records l;
    answered = rw found;
    found = any;
  }

  pub Finds-AllAnswer :
      (self : SplitAuthority dns lib) (options : lib.Options) (c : db.Conn) (rs : List (Record dns))
      → All (Finds build options self.in_memory_authority) rs
      → All (Answers db net dns lib self options c) rs
  Finds-AllAnswer self options c [] all = tt
  Finds-AllAnswer self options c (r ∷ rs) (found, all) =
      (Finds-Answers self options c r found, Finds-AllAnswer self options c rs all)
