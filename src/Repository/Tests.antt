-- ===== src/Repository/Tests.antt =====
-- The repository on the engine in memory: runs, and the theorems at concrete tables.
use swandns.Prelude.{
  ℕ, ◌+◌, String, ◌≡◌, refl, ◌⊎◌, pos, true, false, none, List, [], ◌∷◌, ok, err, arith,
}
use swandns.Sqlite.{SqlError, engine_error, no_rows, select_all, run, answers}
use swandns.Sqlite.Memory.{memory, memory-IsSqlite}
use swandns.Repository.{find_unique, upsert, list, delete}
use swandns.Repository.Entries.{Entry, put, remove, find, IsUnique}
use swandns.Repository.Table.{reply}
use swandns.Repository.Refinement.{
  Implements, answer, Reads, key_query, delete_of, new_entry, find_unique-Implements,
  delete-Implements,
}
use swandns.Repository.Fixtures.{
  empty, request, key, alone, entry, one, only, one-Implements, newer, written,
}
use swandns.Repository.Upserting.{insert_of, upsert-Implements}
use swandns.Repository.Listing.{replies, list-Implements}
use swandns.Repository.History.{Reaches, migrated, inserted, Reaches-Implements}

runs : Unit {0}
unfolding find_unique upsert list delete run answers
runs = tt

-- A second upsert keeps the creation time; a listing seven minutes later is healthy, and one
-- second after that it is not.
second_upsert :
    (upsert memory 160 alone (record request { value = "127.0.0.4" }) one).0
    ≡ ok (record {
      name = "foo.example.com";
      type = "A";
      content = "127.0.0.4";
      ttl = 30;
      created_at = pos 100;
      updated_at = pos 160;
      healthy = true;
    })
unfolding runs
second_upsert = refl

first_upsert : (upsert memory 100 alone request empty).1 ≡ one
unfolding runs
first_upsert = refl

healthy_at : ℕ → ℕ → ℕ
healthy_at now i = now + i

listings :
    ((list memory (healthy_at 520) one).0 ≡ ok (reply memory true entry ∷ []))
    × ((list memory (healthy_at 521) one).0 ≡ ok (reply memory false entry ∷ []))
    × ((list memory (healthy_at 520) (record one { is_broken = true })).0 ≡ err (engine_error 5))
unfolding runs healthy_at
listings = (refl, refl, refl)

deletions :
    ((delete memory key one) ≡ (ok tt, empty)) × ((find_unique memory key empty).0 ≡ err no_rows)
unfolding runs
deletions = (refl, refl)

find_unique-Implements_example :
    Implements memory (find_unique memory key one).1 only
    × Reads memory
        (key_query memory key.name key.type)
        one
        (find_unique memory key one).0
        (answer memory (only key.name key.type))
find_unique-Implements_example =
    find_unique-Implements memory memory-IsSqlite key one only one-Implements

delete-Implements_example :
    (((memory.execute (delete_of memory key) one).0 ≡ ok tt)
      × ((delete memory key one).0 ≡ ok tt)
      × Implements memory (delete memory key one).1 (remove key.name key.type only))
    ⊎ ((e : SqlError) × ((memory.execute (delete_of memory key) one).0 ≡ err e)
        × ((delete memory key one).0 ≡ err e)
        × Implements memory (delete memory key one).1 only)
delete-Implements_example = delete-Implements memory memory-IsSqlite key one only one-Implements

upsert-Implements_example :
    ((e : SqlError) × ((memory.execute (insert_of memory 160 newer) one).0 ≡ err e)
      × ((upsert memory 160 alone newer one).0 ≡ err e)
      × Implements memory (upsert memory 160 alone newer one).1 only)
    ⊎ (((memory.execute (insert_of memory 160 newer) one).0 ≡ ok tt)
        × Implements memory (upsert memory 160 alone newer one).1 (put (new_entry 160 newer) only)
        × Reads memory
            (key_query memory newer.name newer.type)
            (alone (memory.execute (insert_of memory 160 newer) one).1)
            (upsert memory 160 alone newer one).0
            (answer memory (put (new_entry 160 newer) only newer.name newer.type)))
upsert-Implements_example =
    upsert-Implements memory memory-IsSqlite 160 newer alone one only
      (put (new_entry 160 newer) only) (omega arith) (λ k. k) one-Implements

list-Implements_example :
    Implements memory (list memory (healthy_at 521) one).1 only
    × (((es : List (Entry ℕ)) × IsUnique es
          × ((name type : String) → find name type es ≡ only name type)
          × ((list memory (healthy_at 521) one).0 ≡ ok (replies memory (healthy_at 521) 0 es)))
        ⊎ ((e : SqlError) × ((memory.query select_all one).0 ≡ err e)
            × ((list memory (healthy_at 521) one).0 ≡ err e)))
list-Implements_example =
    list-Implements memory memory-IsSqlite (healthy_at 521) one only one-Implements

reached : Reaches memory written (put (new_entry 160 newer) (put entry (λ name type. none)))
reached =
    inserted written 160 newer
      (inserted one 100 request (migrated empty refl) (omega arith) (unfold runs in refl))
      (omega arith) refl

Reaches-Implements_example :
    Implements memory written (put (new_entry 160 newer) (put entry (λ name type. none)))
Reaches-Implements_example = Reaches-Implements memory memory-IsSqlite reached
