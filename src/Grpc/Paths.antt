-- ===== src/Grpc/Paths.antt =====
-- The paths `/name/method` of gRPC (src/proto/swandns.rs), and how they are taken apart.
use Prim.Native.String.{[], ◌∷◌}
use Prim.Native.Char.{Char, code}
use swandns.Prelude.{
  String, ◌≡◌, refl, ap, Bool, false, ◌&&◌, leb, Option, none, some, if◌then◌else◌,
}

abbrev pub followed_by : String → String → String
followed_by [] t = t
followed_by (c ∷ s) t = c ∷ followed_by s t

abbrev pub path_of : String → String → String
path_of name method = "/" ∷ followed_by name ("/" ∷ method)

abbrev is_slash : Char → Bool
is_slash c = leb (code c) b'/' && leb b'/' (code c)

abbrev pub NoSlash : String → Type 0
NoSlash [] = Unit
NoSlash (c ∷ s) = (is_slash c ≡ false) × NoSlash s

abbrev or_slash : Char → Option String → Option String
or_slash c (some s) = some (c ∷ s)
or_slash c none = if is_slash c then some [] else none

abbrev before_last_slash : String → Option String
before_last_slash [] = none
before_last_slash (c ∷ s) = or_slash c (before_last_slash s)

-- the name in a path
abbrev pub service_name : String → Option String
service_name [] = none
service_name (_ ∷ s) = before_last_slash s

no_slash : (s : String) → NoSlash s → before_last_slash s ≡ none
no_slash [] h = refl
no_slash (c ∷ s) (other, h) = rw (no_slash s h, other)

split_at_slash :
    (name method : String)
    → NoSlash method
    → before_last_slash (followed_by name ("/" ∷ method)) ≡ some name
split_at_slash [] method h = rw (no_slash method h)
split_at_slash (c ∷ name) method h = ap (or_slash c) (split_at_slash name method h)

pub service_name-path_of :
    (name method : String) → NoSlash method → service_name (path_of name method) ≡ some name
service_name-path_of name method h = split_at_slash name method h
