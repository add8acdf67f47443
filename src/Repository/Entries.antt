-- ===== src/Repository/Entries.antt =====
-- What the repository promises, apart from SQLite: entries with one key (name, type) each. A
-- `Registry` is the abstract view, a function from keys; a list of entries is what a table holds.
use swandns.Prelude.{
  ℕ, ◌^◌, ◌<◌, String, ◌≡◌, refl, Bool, ◌&&◌, Option, none, some, List, [], ◌∷◌, ◌==◌, eq_iff,
  if◌then◌else◌, All, arith,
}

pub record Entry (T : Type 0) : Type 0 where
  pub name : String
  pub type : String
  pub content : String
  pub ttl : ℕ
  pub created_at : T
  pub updated_at : T

abbrev pub Registry : Type 0 → Type 0
Registry T = String → String → Option (Entry T)

module _ {T : Type 0} where
  abbrev pub has_key : String → String → Entry T → Bool
  has_key name type e = e.name == name && e.type == type

  -- An update keeps the creation time of the entry that it replaces.
  abbrev pub merge : Entry T → Option (Entry T) → Entry T
  merge new none = new
  merge new (some old) = record old {
    content = new.content;
    ttl = new.ttl;
    updated_at = new.updated_at;
  }

  abbrev pub put : Entry T → Registry T → Registry T
  put new reg name type =
      if has_key name type new then some (merge new (reg new.name new.type)) else reg name type

  abbrev pub remove : String → String → Registry T → Registry T
  remove name type reg name' type' =
      if name == name' && type == type' then none else reg name' type'

  -- the same on lists
  unfoldable pub find : String → String → List (Entry T) → Option (Entry T)
  find name type [] = none
  find name type (e ∷ es) = if has_key name type e then some e else find name type es

  unfoldable pub put_entry : Entry T → List (Entry T) → List (Entry T)
  put_entry new [] = new ∷ []
  put_entry new (e ∷ es) =
      if has_key new.name new.type e then merge new (some e) ∷ es else e ∷ put_entry new es

  unfoldable pub drop_entry : String → String → List (Entry T) → List (Entry T)
  drop_entry name type [] = []
  drop_entry name type (e ∷ es) =
      let rest = drop_entry name type es in if has_key name type e then rest else e ∷ rest

  -- PRIMARY KEY (name, type)
  abbrev pub IsUnique : List (Entry T) → Type 0
  IsUnique [] = Unit
  IsUnique (e ∷ es) = (find e.name e.type es ≡ none) × IsUnique es

  pub find-put_entry :
      (new : Entry T) (es : List (Entry T)) (name type : String)
      → find name type (put_entry new es) ≡ (
          if has_key name type new
          then some (merge new (find new.name new.type es))
          else find name type es)
  unfolding find put_entry
  find-put_entry new [] name type = refl
  find-put_entry new (e ∷ es) name type = ground (
    arith,
    find-put_entry new es name type,
    eq_iff e.name new.name,
    eq_iff e.type new.type,
    eq_iff e.name name,
    eq_iff e.type type,
    eq_iff new.name name,
    eq_iff new.type type,
  )

  pub find-drop_entry :
      (name type : String) (es : List (Entry T)) (name' type' : String)
      → find name' type' (drop_entry name type es)
        ≡ (if name == name' && type == type' then none else find name' type' es)
  unfolding find drop_entry
  find-drop_entry name type [] name' type' = ground arith
  find-drop_entry name type (e ∷ es) name' type' = ground (
    arith,
    find-drop_entry name type es name' type',
    eq_iff e.name name,
    eq_iff e.type type,
    eq_iff e.name name',
    eq_iff e.type type',
    eq_iff name name',
    eq_iff type type',
  )

  pub put_entry-IsUnique :
      (new : Entry T) (es : List (Entry T)) → IsUnique es → IsUnique (put_entry new es)
  unfolding find put_entry
  put_entry-IsUnique new [] u = (refl, tt)
  put_entry-IsUnique new (e ∷ es) u = ground (
    arith,
    put_entry-IsUnique new es u.1,
    find-put_entry new es e.name e.type,
    eq_iff e.name new.name,
    eq_iff e.type new.type,
    eq_iff new.name e.name,
    eq_iff new.type e.type,
  )

  pub drop_entry-IsUnique :
      (name type : String) (es : List (Entry T)) → IsUnique es → IsUnique (drop_entry name type es)
  unfolding find drop_entry
  drop_entry-IsUnique name type [] u = tt
  drop_entry-IsUnique name type (e ∷ es) u =
      ground
        (arith, drop_entry-IsUnique name type es u.1, find-drop_entry name type es e.name e.type)

  abbrev pub HasSmallTtl : Entry T → Type 0
  HasSmallTtl e = e.ttl < 2 ^ 32

  pub All-put_entry :
      (new : Entry T) (es : List (Entry T))
      → HasSmallTtl new
      → All HasSmallTtl es
      → All HasSmallTtl (put_entry new es)
  unfolding put_entry
  All-put_entry new [] h hs = (h, tt)
  All-put_entry new (e ∷ es) h hs = ground (arith, All-put_entry new es h hs.1)

  pub All-drop_entry :
      (name type : String) (es : List (Entry T))
      → All HasSmallTtl es
      → All HasSmallTtl (drop_entry name type es)
  unfolding drop_entry
  All-drop_entry name type [] hs = tt
  All-drop_entry name type (e ∷ es) hs = ground (arith, All-drop_entry name type es hs.1)

  pub find-HasSmallTtl :
      (name type : String) (es : List (Entry T)) (e : Entry T)
      → All HasSmallTtl es
      → find name type es ≡ some e
      → HasSmallTtl e
  unfolding find
  find-HasSmallTtl name type [] e hs h = cc
  find-HasSmallTtl name type (x ∷ es) e hs h = ground (arith, find-HasSmallTtl name type es e hs.1)

  -- What is found has the key that was looked for.
  pub find-key :
      (name type : String) (es : List (Entry T)) (e : Entry T)
      → find name type es ≡ some e
      → (e.name ≡ name) × (e.type ≡ type)
  unfolding find
  find-key name type [] e h = cc
  find-key name type (x ∷ es) e h =
      ground (arith, find-key name type es e, eq_iff x.name name, eq_iff x.type type)
