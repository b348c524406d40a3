-- ===== src/Hub.antt =====
-- internal/controlplane/ws/hub.go: topics, subscribers and the bounded queue of each connection.
-- A step is what one goroutine does between two points where another may run: Broadcast copies the
-- subscribers under the lock; in a round of its loop, the send and the close after a refused send are
-- two steps; the read pump's end and each round of writePump are steps too. Connections, the wire and
-- the JSON encoder are gorilla/websocket and encoding/json: what a write returns is an argument.
pub mod Pump
pub mod Parts
pub mod Delivery
pub mod Topics
use docker_monitoring.Prelude.{
  ℕ, zero, suc, Bool, true, false, not, ◌&&◌, ◌||◌, Option, none, some, List, [], ◌∷◌, ◌++◌, length,
  Text, Map, lookup, insert, delete, ltb, ◌==◌, if◌then◌else◌,
}

-- sendBuffer
abbrev pub send_buffer : ℕ
send_buffer = 32

-- A client: its send channel, what has been written to its connection, the message whose write
-- failed, whether writePump has returned, and how many Broadcasts have had their send refused and
-- have yet to close the channel.
pub record Client (V : Type 0) : Type 0 where
  pub pending : List V
  pub closed : Bool
  pub written : List V
  pub lost : List V
  pub returned : Bool
  pub dropping : ℕ

pub record Hub (V : Type 0) : Type 0 where
  pub topics : Map (List ℕ)
  pub clients : ℕ → Client V  -- the heap: a client pointer is a number
  pub next : ℕ  -- the next pointer

unfoldable pub mem : ℕ → List ℕ → Bool
mem c [] = false
mem c (d ∷ ds) = (d == c) || mem c ds

-- `subs[c] = struct{}{}` and `delete(subs, c)`.
unfoldable pub add : ℕ → List ℕ → List ℕ
add c cs = if mem c cs then cs else c ∷ cs

unfoldable pub remove : ℕ → List ℕ → List ℕ
remove c [] = []
remove c (d ∷ ds) = let rest = remove c ds in if d == c then rest else d ∷ rest

module _ {V : Type 0} where
  abbrev pub new_client : Client V
  new_client = record {
    pending = [];
    closed = false;
    written = [];
    lost = [];
    returned = false;
    dropping = 0;
  }

  abbrev pub new_hub : Hub V
  new_hub = record { topics = []; clients = λ c. new_client; next = 0 }

  -- A send on a full channel is refused; on a closed one it panics, and the recovery refuses it.
  unfoldable pub try_send : Client V → V → Client V × Bool
  try_send c payload =
      if not c.closed && ltb (length c.pending) send_buffer
      then (record c { pending = c.pending ++ (payload ∷ []) }, true)
      else (c, false)

  -- `c.closeOnce.Do(func() { close(c.send) })`
  unfoldable pub close_send : Client V → Client V
  close_send c = record c { closed = true }

  -- A round of Broadcast's loop up to the result of trySend.
  unfoldable pub begin_round : Client V → V → Client V
  unfolding try_send
  begin_round c payload =
      let (after, sent) = try_send c payload in
      if sent then after else record after { dropping = suc after.dropping }

  -- The rest of a round whose send was refused, if there is such a round.
  unfoldable pub finish_round : Client V → Client V
  unfolding close_send
  finish_round c = elim c.dropping [ zero ↦ c | suc n ↦ close_send (record c { dropping = n }) ]

  -- A round of Broadcast's loop in which no other goroutine runs.
  unfoldable pub round_alone : Client V → V → Client V
  unfolding try_send close_send
  round_alone c payload =
      let (after, sent) = try_send c payload in if sent then after else close_send after

  -- One round of writePump on the send channel; `wrote` is whether the write succeeds.
  unfoldable pub pump : Client V → Bool → Client V
  pump c wrote = if c.returned then c else elim c.pending [
    | [] ↦ if c.closed then record c { returned = true } else c
    | m ∷ rest ↦
        if wrote
        then record c { pending = rest; written = c.written ++ (m ∷ []) }
        else record c { pending = rest; lost = m ∷ []; returned = true }
  ]

  -- One round of writePump on the ticker.
  unfoldable pub ping : Client V → Bool → Client V
  ping c wrote = if c.returned || wrote then c else record c { returned = true }

  -- A write through a client pointer.
  unfoldable pub set_client : Hub V → ℕ → Client V → Hub V
  set_client h c v = record h { clients = λ d. if c == d then v else h.clients d }

  unfoldable pub subscribers : Hub V → Text → List ℕ
  subscribers h topic = elim (lookup topic h.topics) [ none ↦ [] | some subs ↦ subs ]

  unfoldable pub subscribe : Hub V → Text → ℕ → Hub V
  subscribe h topic c = record h { topics = insert topic (add c (subscribers h topic)) h.topics }

  unfoldable pub unsubscribe : Hub V → Text → ℕ → Hub V
  unsubscribe h topic c = elim (lookup topic h.topics) [
    | none ↦ h
    | some subs ↦ elim (remove c subs) [
      | [] ↦ record h { topics = delete topic h.topics }
      | d ∷ ds ↦ record h { topics = insert topic (d ∷ ds) h.topics }
    ]
  ]

  unfoldable pub subscriber_count : Hub V → Text → ℕ
  subscriber_count h topic = length (subscribers h topic)

  unfoldable pub rounds_alone : Hub V → V → List ℕ → Hub V
  rounds_alone h payload [] = h
  rounds_alone h payload (c ∷ rest) =
      rounds_alone (set_client h c (round_alone (h.clients c) payload)) payload rest

  -- Broadcast with no other step between its rounds; a value that does not marshal is `none`.
  unfoldable pub broadcast : Hub V → Text → Option V → Hub V
  unfolding rounds_alone
  broadcast h topic none = h
  broadcast h topic (some payload) = rounds_alone h payload (subscribers h topic)

  -- ServeTopic up to writePump, once the upgrade has succeeded: the pointer of the new client.
  unfoldable pub join : Hub V → Text → Hub V × ℕ
  unfolding set_client subscribe
  join h topic = (
    record (subscribe (set_client h h.next new_client) topic h.next) { next = suc h.next },
    h.next,
  )

  -- ServeTopic after writePump: closing the connection ends the read pump, which closes the channel.
  unfoldable pub leave : Hub V → Text → ℕ → Hub V
  unfolding unsubscribe set_client
  leave h topic c =
      let after = unsubscribe h topic c in set_client after c (close_send (after.clients c))
