-- ===== src/RpcServer/Stream.antt =====
-- The stream of `list` (src/rpc_server/records.rs): a spawned task sends the records through a
-- channel of four places, and the response reads from it. Sender, receiver and a client that goes
-- away take steps in any order. The channel is tokio's: `send` waits for a place, and fails once
-- the receiver is dropped; a receiver sees the end when the sender is dropped and nothing is left.
use swandns.Prelude.{
  ℕ, zero, suc, ◌+◌, ◌*◌, ◌≤◌, ◌<◌, ◌≡◌, refl, sym, ap, ap₂, ◌∙◌, ◌≢◌, ◌⊎◌, inl, inr, Bool, true,
  false, List, [], ◌∷◌, ◌++◌, Result, ok, err, length, length-append, List-cases, arith,
}
use mathlib.Core.List.{append_assoc, append-nil}
use swandns.Messages.{RecordReply}
use swandns.Sqlite.{SqlError}

-- the sender's task: at its loop, at its end, or ended by an `unwrap`
pub data Sender : Type 0 where
  running finished panicked : Sender

abbrev pub is_running : Sender → ℕ
is_running running = 1
is_running _ = 0

pub record Stream : Type 0 where
  pub pending : List RecordReply
  pub queue : List RecordReply
  pub received : List RecordReply
  pub sender : Sender
  pub is_open : Bool

-- `mpsc::channel(4)`
abbrev pub capacity : ℕ
capacity = 4

-- The task after `repo.list().await.unwrap()`.
unfoldable pub start : Result SqlError (List RecordReply) → Stream
start (ok records) = record {
  pending = records;
  queue = [];
  received = [];
  sender = running;
  is_open = true;
}
start (err _) = record {
  pending = [];
  queue = [];
  received = [];
  sender = panicked;
  is_open = true;
}

pub data Step (s t : Stream) : Type 0 where
  -- `tx.send(Ok(record)).await` with a place free
  send :
      (r : RecordReply) (rest : List RecordReply)
      → s.sender ≡ running
      → s.pending ≡ r ∷ rest
      → s.is_open ≡ true
      → length s.queue < capacity
      → t ≡ record s { pending = rest; queue = s.queue ++ r ∷ [] }
      → Step s t
  -- the `unwrap` of a `send` after the receiver is gone
  send_fails :
      (r : RecordReply) (rest : List RecordReply)
      → s.sender ≡ running
      → s.pending ≡ r ∷ rest
      → s.is_open ≡ false
      → t ≡ record s { sender = panicked }
      → Step s t
  -- the loop is over and `tx` is dropped
  finish : s.sender ≡ running → s.pending ≡ [] → t ≡ record s { sender = finished } → Step s t
  -- the response's stream takes a record
  receive :
      (r : RecordReply) (rest : List RecordReply)
      → s.is_open ≡ true
      → s.queue ≡ r ∷ rest
      → t ≡ record s { queue = rest; received = s.received ++ r ∷ [] }
      → Step s t
  -- the client goes away, and the receiver is dropped
  hang_up : s.is_open ≡ true → t ≡ record s { is_open = false } → Step s t

pub data Reach (s : Stream) : Stream → Type 0 where
  here : Reach s s
  next : {t u : Stream} → Reach s t → Step t u → Reach s u

-- the client has seen the end of the stream
abbrev pub IsOver : Stream → Type 0
IsOver s = (s.is_open ≡ true) × (s.sender ≢ running) × (s.queue ≡ [])

-- Nothing is lost, doubled or reordered, and the channel keeps to its capacity.
pub record IsSound (records : List RecordReply) (s : Stream) : Type 0 where
  pub kept : s.received ++ (s.queue ++ s.pending) ≡ records
  pub bounded : length s.queue ≤ capacity
  -- a task that is over with the receiver still there has sent everything
  pub complete : s.is_open ≡ true → s.sender ≢ running → s.pending ≡ []

Step-IsSound :
    (records : List RecordReply) {s t : Stream} → IsSound records s → Step s t → IsSound records t
Step-IsSound records {s} h (send r rest go head alive room e) = rw e (record {
  kept =
      ap (λ q. s.received ++ q) (append_assoc s.queue (r ∷ []) rest)
      ∙ ap (λ p. s.received ++ (s.queue ++ p)) (sym head)
      ∙ h.kept;
  bounded = omega (arith, length-append s.queue (r ∷ []));
  complete = λ alive' over. absurd (over go);
})
Step-IsSound records {s} h (send_fails r rest go head closed e) = ground arith
Step-IsSound records {s} h (finish go none_left e) = ground arith
Step-IsSound records {s} h (receive r rest alive head e) = rw e (record {
  kept =
      append_assoc s.received (r ∷ []) (rest ++ s.pending)
      ∙ ap (λ q. s.received ++ (q ++ s.pending)) (sym head)
      ∙ h.kept;
  bounded = omega (arith, h.bounded, ap length head);
  complete = h.complete;
})
Step-IsSound records {s} h (hang_up alive e) = ground arith

Reach-IsSound :
    (records : List RecordReply) {s t : Stream} → IsSound records s → Reach s t → IsSound records t
Reach-IsSound records h here = h
Reach-IsSound records h (next r step) = Step-IsSound records (Reach-IsSound records h r) step

-- what the listing gave the task
abbrev pub listed : Result SqlError (List RecordReply) → List RecordReply
listed (ok records) = records
listed (err _) = []

start-IsSound : (r : Result SqlError (List RecordReply)) → IsSound (listed r) (start r)
unfolding start
start-IsSound (ok records) = record {
  kept = refl;
  bounded = omega arith;
  complete = λ alive over. absurd (over refl);
}
start-IsSound (err e) = record { kept = refl; bounded = omega arith; complete = λ alive over. refl }

-- However sender, receiver and client interleave, what the client has received is the beginning of
-- the listing, in its order, and the channel holds at most four records.
pub received_prefix :
    (r : Result SqlError (List RecordReply)) {s : Stream}
    → Reach (start r) s
    → ((rest : List RecordReply) × (s.received ++ rest ≡ listed r)) × (length s.queue ≤ capacity)
received_prefix r {s} steps =
    let h = Reach-IsSound (listed r) (start-IsSound r) steps in
    ((s.queue ++ s.pending, h.kept), h.bounded)

-- A client that sees the end of the stream has received the whole listing; after a listing that
-- failed it sees the same end, with no record and no error.
pub received_all :
    (r : Result SqlError (List RecordReply)) {s : Stream}
    → Reach (start r) s
    → IsOver s
    → s.received ≡ listed r
received_all r {s} steps (alive, over, empty) =
    let h = Reach-IsSound (listed r) (start-IsSound r) steps in
    sym (append-nil s.received)
    ∙ ap (λ q. s.received ++ q) (sym (ap₂ ◌++◌ empty (h.complete alive over)))
    ∙ h.kept

-- steps left, while the client stays
abbrev pub remaining : Stream → ℕ
remaining s = 2 * length s.pending + length s.queue + is_running s.sender

Sender-cases : (x : Sender) → (x ≡ running) ⊎ (x ≢ running)
Sender-cases running = inl refl
Sender-cases finished = inr (λ e. cc)
Sender-cases panicked = inr (λ e. cc)

-- While the client stays, the stream is over or some step brings its end nearer.
progress :
    (s : Stream)
    → s.is_open ≡ true
    → IsOver s ⊎ ((t : Stream) × Step s t × (t.is_open ≡ true) × (remaining t < remaining s))
progress s alive = elim (List-cases s.queue) [
  | inr (r, rest, head) ↦ inr (
    record s { queue = rest; received = s.received ++ r ∷ [] },
    receive r rest alive head refl,
    alive,
    omega (arith, ap length head),
  )
  | inl empty ↦ elim (Sender-cases s.sender) [
    | inr over ↦ inl (alive, over, empty)
    | inl go ↦ elim (List-cases s.pending) [
      | inl none_left ↦ inr (
        record s { sender = finished },
        finish go none_left refl,
        alive,
        omega (arith, ap is_running go),
      )
      | inr (r, rest, head) ↦ inr (
        record s { pending = rest; queue = s.queue ++ r ∷ [] },
        send r rest go head alive (omega (arith, ap length empty)) refl,
        alive,
        omega (arith, ap length head, length-append s.queue (r ∷ [])),
      )
    ]
  ]
]

Reach-trans : {s t u : Stream} → Reach s t → Reach t u → Reach s u
Reach-trans p here = p
Reach-trans p (next q step) = next (Reach-trans p q) step

IsOver-reached :
    (n : ℕ) (s : Stream) → remaining s < n → s.is_open ≡ true → (t : Stream) × Reach s t × IsOver t
IsOver-reached zero s h alive = absurd (omega arith)
IsOver-reached (suc n) s h alive = elim (progress s alive) [
  | inl over ↦ (s, here, over)
  | inr (t, step, alive', less) ↦
      let (u, steps, over) = IsOver-reached n t (omega arith) alive' in
      (u, Reach-trans (next here step) steps, over)
]

-- The stream cannot get stuck: from every state in which the client is still there, some steps
-- lead to its end, and by then the client has received the whole listing.
pub completes :
    (r : Result SqlError (List RecordReply)) {s : Stream}
    → Reach (start r) s
    → s.is_open ≡ true
    → (t : Stream) × Reach s t × IsOver t × (t.received ≡ listed r)
completes r {s} steps alive =
    let (t, more, over) = IsOver-reached (suc (remaining s)) s (omega arith) alive in
    (t, more, over, received_all r (Reach-trans steps more) over)
