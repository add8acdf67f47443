-- ===== src/DnsServer/Fixtures.antt =====
-- A builder of catalogs over the library of Authority/Split/Fixtures.antt, for the tests: a catalog
-- is a list of zones.
use swandns.Prelude.{
  ℕ, ◌≡◌, refl, inl, inr, true, Bool-cases, List, [], ◌∷◌, ◌++◌, length, ok, Any, eq_refl, arith,
  Option, none, some, ◌==◌, ◌≢◌, if◌then◌else◌,
}
use swandns.Dns.{RecordType, Record}
use swandns.Dns.Fixtures.{ZoneName, root, foo, www, names, show, show_type}
use swandns.DnsServer.Served.{IsCatalog}
use swandns.Config.{ZoneConfig}
use swandns.Authority.Split.{SplitAuthority}
use swandns.Authority.Split.Fixtures.{library, is_for, records_for, found}
use swandns.DnsServer.Static.{IsLike, Finds, IsInMemory}
use swandns.DnsServer.{NameServer, Builder}

abbrev pub Zones : Type 0
Zones = List (ZoneName × SplitAuthority names library)

abbrev pub forward : ZoneName → List NameServer → ℕ
forward name servers = length servers

abbrev pub builder : Builder names library
builder = record {
  empty = λ name. [];
  insert = λ r i rs. rs ++ r ∷ [];
  forward = λ name servers. ok (forward name servers);
  Catalog = Zones;
  new_catalog = [];
  upsert = λ origin authority zones. zones ++ (origin, authority) ∷ [];
}

abbrev pub zone : ZoneConfig
zone = record { name = "example.com"; records = record { key = "www"; value = "127.0.0.4" } ∷ [] }

abbrev pub bad_zone : ZoneConfig
bad_zone = record { name = "nowhere"; records = [] }

records_for-append :
    (name : ZoneName) (rtype : RecordType) (rs : List (Record names)) (r : Record names)
    → records_for name rtype (rs ++ r ∷ [])
      ≡ records_for name rtype rs ++ records_for name rtype (r ∷ [])
records_for-append name rtype [] r = refl
records_for-append name rtype (s ∷ rs) r = elim (Bool-cases (is_for name rtype s)) [
  | inl fits ↦ rw (fits, records_for-append name rtype rs r)
  | inr other ↦ rw (other, records_for-append name rtype rs r)
]

Any-left : (P : Record names → Type 0) (xs ys : List (Record names)) → Any P xs → Any P (xs ++ ys)
Any-left P [] ys h = absurd h
Any-left P (x ∷ xs) ys (inl h) = inl h
Any-left P (x ∷ xs) ys (inr h) = inr (Any-left P xs ys h)

Any-right : (P : Record names → Type 0) (xs ys : List (Record names)) → Any P ys → Any P (xs ++ ys)
Any-right P [] ys h = h
Any-right P (x ∷ xs) ys h = inr (Any-right P xs ys h)

found-Any : (P : Record names → Type 0) (rs : List (Record names)) → Any P rs → found rs ≡ ok rs
found-Any P [] h = absurd h
found-Any P (r ∷ rs) h = refl

found-ok : (rs ss : List (Record names)) → found rs ≡ ok ss → rs ≡ ss
found-ok [] ss e = cc
found-ok (r ∷ rs) ss e = ground (arith, e)

is_for_refl : (r : Record names) → is_for r.name r.rr_type r ≡ true
is_for_refl r = rw (eq_refl (show r.name), eq_refl (show_type r.rr_type))

finds :
    (m : List (Record names)) (r : Record names)
    → Any (IsLike r) (records_for r.name r.rr_type m)
    → Finds builder tt m r
finds m r any = (records_for r.name r.rr_type m, found-Any (IsLike r) _ any, any)

inserted_lem : (m : List (Record names)) (r : Record names) → Finds builder tt (m ++ r ∷ []) r
inserted_lem m r =
    let itself : Any (IsLike r) (records_for r.name r.rr_type (r ∷ [])) =
      rw (is_for_refl r) (
        inl (record { name = refl; rr_type = refl; dns_class = refl; ttl = refl; rdata = refl })) in
    finds (m ++ r ∷ []) r (
      rw (records_for-append r.name r.rr_type m r)
        (Any-right (IsLike r) (records_for r.name r.rr_type m) _ itself))

kept_lem :
    (m : List (Record names)) (r new : Record names)
    → Finds builder tt m r
    → Finds builder tt (m ++ new ∷ []) r
kept_lem m r new (l, e, any) =
    let same = found-ok (records_for r.name r.rr_type m) l e in
    finds (m ++ new ∷ []) r (
      rw (records_for-append r.name r.rr_type m new)
        (Any-left (IsLike r) (records_for r.name r.rr_type m) _ (rw same any)))

pub builder-IsInMemory : IsInMemory builder
builder-IsInMemory = record {
  inserted = λ options m r i full is_static. inserted_lem m r;
  kept = λ options m r new i full new_static is_static held. kept_lem m r new held;
}

abbrev or_option :
    Option (SplitAuthority names library)
    → Option (SplitAuthority names library)
    → Option (SplitAuthority names library)
or_option (some self) before = some self
or_option none before = before

-- the last authority of a name
abbrev pub find_zone : Zones → ZoneName → Option (SplitAuthority names library)
find_zone [] origin = none
find_zone ((name, self) ∷ zones) origin =
    or_option (find_zone zones origin) (if show name == show origin then some self else none)

show-injective : (m n : ZoneName) → show m == show n ≡ true → m ≡ n
show-injective root root e = refl
show-injective root foo e = cc
show-injective root www e = cc
show-injective foo root e = cc
show-injective foo foo e = refl
show-injective foo www e = cc
show-injective www root e = cc
show-injective www foo e = cc
show-injective www www e = refl

zone_found :
    (origin : ZoneName) (self : SplitAuthority names library) (zones : Zones)
    → find_zone (zones ++ (origin, self) ∷ []) origin ≡ some self
zone_found origin self [] = rw (eq_refl (show origin))
zone_found origin self ((name, before) ∷ zones) = rw (zone_found origin self zones)

zone_kept :
    (origin name : ZoneName) (self : SplitAuthority names library) (zones : Zones)
    → name ≢ origin
    → find_zone (zones ++ (name, self) ∷ []) origin ≡ find_zone zones origin
zone_kept origin name self [] differs = elim (Bool-cases (show name == show origin)) [
  | inl same ↦ absurd (differs (show-injective name origin same))
  | inr different ↦ rw different
]
zone_kept origin name self ((other, before) ∷ zones) differs =
    rw (zone_kept origin name self zones differs)

pub builder-IsCatalog : IsCatalog builder find_zone
builder-IsCatalog = record {
  found = zone_found;
  others_kept = λ origin other self zones differs. zone_kept origin other self zones differs;
}
