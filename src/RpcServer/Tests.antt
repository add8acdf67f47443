-- ===== src/RpcServer/Tests.antt =====
-- The gRPC handlers and the stream, at concrete tables and runs.
use swandns.Prelude.{
  String, ◌+◌, ℕ, ◌≤◌, ◌≡◌, refl, ◌⊎◌, true, none, some, List, [], ◌∷◌, ◌++◌, length, Result, ok,
  err, returned, panicked, arith,
}
use swandns.Messages.{RecordReply}
use swandns.Sqlite.{SqlError}
use swandns.Sqlite.Memory.{memory, memory-IsSqlite}
use swandns.Repository.{list}
use swandns.Repository
use swandns.Repository.Listing.{replies}
use swandns.Repository.Entries.{IsUnique, find, Entry, merge, put, remove}
use swandns.Repository.Table.{reply}
use swandns.Repository.Refinement.{Implements, key_query, delete_of, new_entry}
use swandns.Repository.Fixtures.{
  entry, only, one, one-Implements, key, newer, alone, deleting, deleting-Implements, written,
}
use swandns.RpcServer.{ping, find_unique, upsert, delete}
use swandns.RpcServer.Handlers.{missing, find_unique_lem, upsert_returns, upsert_panics, delete_lem}
use swandns.RpcServer.Listed.{list_delivers}
use swandns.RpcServer.Ending.{steps, steps_bounded}
use swandns.RpcServer.Stream.{
  Stream, Sender, start, send, receive, finish, Reach, here, next, IsOver, listed, capacity,
  received_prefix, completes,
}

ping_pong : ping (record { message = "hello" }) ≡ returned (ok (record { message = "pong" }))
unfolding ping
ping_pong = refl

find_unique_lem_example :
    Implements memory (find_unique memory key one).1 only
    × (((e : Entry ℕ) × (only key.name key.type ≡ some e)
          × ((find_unique memory key one).0 ≡ returned (ok (reply memory true e))))
        ⊎ (((only key.name key.type ≡ none)
              ⊎ ((x : SqlError) × ((memory.query (key_query memory key.name key.type) one).0
                    ≡ err x)))
            × ((find_unique memory key one).0 ≡ returned (err missing))))
find_unique_lem_example = find_unique_lem memory memory-IsSqlite key one only one-Implements

upsert_returns_example :
    (upsert memory 160 alone newer one).0
    ≡ returned (ok (reply memory true (merge (new_entry 160 newer) (only newer.name newer.type))))
unfolding Repository.find_unique
upsert_returns_example =
    upsert_returns memory memory-IsSqlite 160 newer alone one only _ (omega arith) refl
      one-Implements refl refl

upsert_panics_example : (upsert memory 160 deleting newer one).0 ≡ panicked
upsert_panics_example =
    upsert_panics memory memory-IsSqlite 160 newer deleting one only (omega arith)
      (λ k. deleting-Implements written (put (new_entry 160 newer) only) refl k) one-Implements

delete_lem_example :
    (((memory.execute (delete_of memory key) one).0 ≡ ok tt)
      × ((delete memory key one).0 ≡ returned (ok tt))
      × Implements memory (delete memory key one).1 (remove key.name key.type only))
    ⊎ ((x : SqlError) × ((memory.execute (delete_of memory key) one).0 ≡ err x)
        × ((delete memory key one).0 ≡ panicked)
        × Implements memory (delete memory key one).1 only)
delete_lem_example = delete_lem memory memory-IsSqlite key one only one-Implements

abbrev first : RecordReply
first = reply memory true entry

abbrev listing : Result SqlError (List RecordReply)
listing = ok (first ∷ [])

abbrev sent : Stream
sent = record {
  pending = [];
  queue = first ∷ [];
  received = [];
  sender = Sender.running;
  is_open = true;
}

abbrev read : Stream
read = record sent { queue = []; received = first ∷ [] }

abbrev over : Stream
over = record read { sender = Sender.finished }

to_sent : Reach (start listing) sent
unfolding start
to_sent = next here (send first [] refl refl refl (omega arith) refl)

to_over : Reach (start listing) over
to_over = next (next to_sent (receive first [] refl refl refl)) (finish refl refl refl)

received_prefix_example :
    ((rest : List RecordReply) × (sent.received ++ rest ≡ listed listing))
    × (length sent.queue ≤ capacity)
received_prefix_example = received_prefix listing {s = sent} to_sent

over-IsOver : IsOver over
over-IsOver = (refl, λ e. cc, refl)

abbrev clock : ℕ → ℕ
clock i = 200 + i

-- The listing of one entry, sent, read and ended.
list_delivers_example :
    ((es : List (Entry ℕ)) × IsUnique es
      × ((name type : String) → find name type es ≡ only name type)
      × (over.received ≡ replies memory clock 0 es))
    ⊎ ((e : SqlError) × ((list memory clock one).0 ≡ err e) × (over.received ≡ []))
unfolding list swandns.Sqlite.answers
list_delivers_example =
    list_delivers memory memory-IsSqlite clock one only {s = over} one-Implements to_over
      over-IsOver

completes_example : (t : Stream) × Reach sent t × IsOver t × (t.received ≡ listed listing)
completes_example = completes listing {s = sent} to_sent refl

steps_bounded_example : steps to_over ≤ 4
steps_bounded_example = steps_bounded listing {s = over} to_over
