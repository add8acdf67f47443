-- ===== src/Repository/Fixtures.antt =====
-- Concrete tables, requests and entries, for the tests.
use swandns.Prelude.{ℕ, ◌≡◌, refl, none, false, [], ◌∷◌, arith}
use swandns.Messages.{UpsertRecordRequest, FindUniqueRecordRequest}
use swandns.Sqlite.Memory.{Database, memory, memory-IsSqlite}
use swandns.Repository.{delete}
use swandns.Repository.Entries.{Entry, Registry, remove, find}
use swandns.Repository.Table.{encode}
use swandns.Repository.Refinement.{Implements, new_entry, remove-Implements}
use swandns.Repository.Upserting.{insert_of}

abbrev pub empty : Database
empty = record { table = []; is_broken = false; version = 1 }

abbrev pub request : UpsertRecordRequest
request = record { name = "foo.example.com"; type = "A"; value = "127.0.0.3"; ttl = 30 }

abbrev pub key : FindUniqueRecordRequest
key = record { name = "foo.example.com"; type = "A" }

abbrev pub alone : Database → Database
alone c = c

-- the entry of that request at second 100, and the table that holds it
abbrev pub entry : Entry ℕ
entry = new_entry 100 request

abbrev pub one : Database
one = record { table = encode memory entry ∷ []; is_broken = false; version = 1 }

abbrev pub only : Registry ℕ
only name type = find name type (entry ∷ [])

pub one-Implements : Implements memory one only
one-Implements = record {
  entries = entry ∷ [];
  stored = refl;
  unique = unfold find in (refl, tt);
  small = (omega arith, tt);
  view = λ name type. refl;
}

abbrev pub newer : UpsertRecordRequest
newer = record request { value = "127.0.0.4" }

-- another task, which deletes the key
abbrev pub deleting : Database → Database
deleting c = (delete memory key c).1

pub deleting-Implements :
    (c : Database) (reg : Registry ℕ)
    → c.is_broken ≡ false
    → Implements memory c reg
    → Implements memory (deleting c) (remove key.name key.type reg)
deleting-Implements c reg works k =
    unfold delete in remove-Implements memory memory-IsSqlite key.name key.type c _ reg k (rw works)

-- the connection after the INSERT of the newer request
abbrev pub written : Database
written = (memory.execute (insert_of memory 160 newer) one).1

-- the registry of the empty table
abbrev pub nothing : Registry ℕ
nothing name type = none

pub empty-Implements : Implements memory empty nothing
empty-Implements = record {
  entries = [];
  stored = refl;
  unique = tt;
  small = tt;
  view = λ name type. unfold find in refl;
}
