-- ===== src/Util/Interfaces.antt =====
-- What `get_iface_addr` (src/util.rs) chooses.
use mathlib.Core.Option.{get_or}
use swandns.Prelude.{
  String, ◌≡◌, refl, ap, ◌∙◌, ◌⊎◌, inl, inr, Bool, true, false, ◌&&◌, Option, none, some, List, [],
  ◌∷◌, ◌++◌, Bool-cases, Result-cases, ok, err, returned, All, arith,
}
use swandns.Prelude.Text.{eq_ignore_ascii_case, eq_ignore_ascii_case_comm}
use swandns.Net.{IpAddr}
use swandns.Util.{
  interface_not_found, Host, system_protocol, find_iface, local_addr, get_iface_addr,
}

-- The interface has the wanted protocol and name, in any mixture of case.
abbrev pub fits : String → String → String × IpAddr → Bool
fits desired iface (name, ip) =
    eq_ignore_ascii_case (system_protocol ip) desired && eq_ignore_ascii_case name iface

abbrev pub IsMisfit : String → String → String × IpAddr → Type 0
IsMisfit desired iface x = fits desired iface x ≡ false

-- the first interface that fits
pub record IsFirst (desired iface : String) (l : List (String × IpAddr)) (ip : IpAddr)
    : Type 0 where
  pub before : List (String × IpAddr)
  pub name : String
  pub after : List (String × IpAddr)
  pub split : l ≡ before ++ (name, ip) ∷ after
  pub fitting : fits desired iface (name, ip) ≡ true
  pub misfits : All (IsMisfit desired iface) before

find_iface_lem :
    (desired iface : String) (l : List (String × IpAddr))
    → ((ip : IpAddr) × (find_iface desired iface l ≡ ok ip) × IsFirst desired iface l ip)
      ⊎ ((find_iface desired iface l ≡ err interface_not_found) × All (IsMisfit desired iface) l)
unfolding find_iface
find_iface_lem desired iface [] = inr (refl, tt)
find_iface_lem desired iface ((name, ip) ∷ rest) =
    elim (Bool-cases (fits desired iface (name, ip))) [
      | inl fit ↦ inl (
        ip,
        ground arith,
        record {
          before = [];
          name = name;
          after = rest;
          split = refl;
          fitting = fit;
          misfits = tt;
        },
      )
      | inr misfit ↦ elim (find_iface_lem desired iface rest) [
        | inl (ip', found, first) ↦ inl (
          ip',
          ground arith,
          record {
            before = (name, ip) ∷ first.before;
            name = first.name;
            after = first.after;
            split = ap (λ l. (name, ip) ∷ l) first.split;
            fitting = first.fitting;
            misfits = (misfit, first.misfits);
          },
        )
        | inr (missed, misfits) ↦ inr (ground arith, (misfit, misfits))
      ]
    ]

-- With an interface given, and the interfaces of the host listed, the address is that of the first
-- interface of the host with its name and the wanted protocol (IPv4 by default), whatever the case
-- of either; where none fits, also for a protocol that does not exist, the error is that the
-- interface was not found.
pub get_iface_addr_named :
    (host : Host) (iface : String) (protocol : Option String) (l : List (String × IpAddr))
    → host.interfaces ≡ ok l
    → ((ip : IpAddr) × (get_iface_addr host (some iface) protocol ≡ returned (ok ip))
        × IsFirst (get_or protocol "ipv4") iface l ip)
      ⊎ ((get_iface_addr host (some iface) protocol ≡ returned (err interface_not_found))
          × All (IsMisfit (get_or protocol "ipv4") iface) l)
unfolding get_iface_addr
get_iface_addr_named host iface protocol l h =
    elim (find_iface_lem (get_or protocol "ipv4") iface l) [
      | inl (ip, found, first) ↦ inl (ip, rw (h, found), first)
      | inr (missed, misfits) ↦ inr (rw (h, missed), misfits)
    ]

-- The addresses of the host itself have the protocols that they are asked for.
pub record IsHost (host : Host) : Type 0 where
  pub ipv4 : (ip : IpAddr) → host.local_ip ≡ ok ip → system_protocol ip ≡ "ipv4"
  pub ipv6 : (ip : IpAddr) → host.local_ipv6 ≡ ok ip → system_protocol ip ≡ "ipv6"

local_addr_protocol :
    (host : Host) (desired : String) (ip : IpAddr)
    → IsHost host
    → local_addr host desired ≡ ok ip
    → eq_ignore_ascii_case (system_protocol ip) desired ≡ true
unfolding local_addr
local_addr_protocol host desired ip h e = elim (Bool-cases (eq_ignore_ascii_case desired "ipv4")) [
  | inl four ↦
      rw (h.ipv4 ip (rw (four, local_addr) at e)) (eq_ignore_ascii_case_comm "ipv4" desired ∙ four)
  | inr not_four ↦ elim (Bool-cases (eq_ignore_ascii_case desired "ipv6")) [
    | inl six ↦
        rw (h.ipv6 ip (rw (not_four, six, local_addr) at e))
          (eq_ignore_ascii_case_comm "ipv6" desired ∙ six)
    | inr not_six ↦ cc (rw (not_four, not_six, local_addr) at e)
  ]
]

find_iface-protocol :
    (desired iface : String) (l : List (String × IpAddr)) (ip : IpAddr)
    → find_iface desired iface l ≡ ok ip
    → eq_ignore_ascii_case (system_protocol ip) desired ≡ true
unfolding find_iface
find_iface-protocol desired iface [] ip e = cc
find_iface-protocol desired iface ((name, x) ∷ rest) ip e =
    ground (arith, find_iface-protocol desired iface rest ip)

-- On a host whose own addresses are of their kinds, an address that `get_iface_addr` returns, from
-- an interface or from the host, is of the wanted protocol: IPv4, unless another one is named.
pub get_iface_addr-protocol :
    (host : Host) (iface protocol : Option String) (ip : IpAddr)
    → IsHost host
    → get_iface_addr host iface protocol ≡ returned (ok ip)
    → eq_ignore_ascii_case (system_protocol ip) (get_or protocol "ipv4") ≡ true
unfolding get_iface_addr
get_iface_addr-protocol host none protocol ip h e =
    local_addr_protocol host (get_or protocol "ipv4") ip h (ground (arith, e))
get_iface_addr-protocol host (some iface) protocol ip h e = elim (Result-cases host.interfaces) [
  | inl (l, listed) ↦
      find_iface-protocol (get_or protocol "ipv4") iface l ip (ground (arith, e, listed))
  | inr (x, failed) ↦ ground (arith, e, failed)
]
