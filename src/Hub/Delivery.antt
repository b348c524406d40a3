-- ===== src/Hub/Delivery.antt =====
-- What one connection of internal/controlplane/ws/hub.go is sent, over any interleaving of the
-- goroutines that touch it.
use docker_monitoring.Prelude.{
  ℕ, zero, suc, ◌≤◌, ◌<◌, ◌≡◌, refl, ◌∙◌, ap, sym, ◌⊎◌, inl, inr, Bool, true, false, not, ◌&&◌,
  ◌||◌, List, [], ◌∷◌, ◌++◌, append_assoc, append-nil, length, length-append, List-cases, subst,
  ltb, arith, Bool-cases,
}
use docker_monitoring.Hub.Parts.{IsPart, part_nil, append-IsPart, skip-IsPart}
use docker_monitoring.Hub.Pump.{pump_gone, pump_waits, pump_ends}
use docker_monitoring.Hub.{
  Client, new_client, send_buffer, try_send, close_send, begin_round, finish_round, pump, ping,
}

-- A step of a goroutine on a client: the two halves of a round of a Broadcast, the read pump's end, a
-- round of writePump on the channel or on the ticker.
pub data ClientStep (V : Type 0) : Type 0 where
  tried : V → ClientStep V
  dropped read_ended : ClientStep V
  pumped pinged : Bool → ClientStep V

count-cases : (n : ℕ) → (n ≡ 0) ⊎ ((k : ℕ) × (n ≡ suc k))
count-cases zero = inl refl
count-cases (suc k) = inr (k, refl)

module _ {V : Type 0} where
  unfoldable pub client_step : Client V → ClientStep V → Client V
  client_step c (tried payload) = begin_round c payload
  client_step c dropped = finish_round c
  client_step c read_ended = close_send c
  client_step c (pumped wrote) = pump c wrote
  client_step c (pinged wrote) = ping c wrote

  unfoldable pub run_client : Client V → List (ClientStep V) → Client V
  run_client c [] = c
  run_client c (s ∷ rest) = run_client (client_step c s) rest

  -- What a step, and what a history, offers to the client.
  unfoldable pub offered_by : ClientStep V → List V
  offered_by (tried payload) = payload ∷ []
  offered_by _ = []

  unfoldable pub offered_in : List (ClientStep V) → List V
  offered_in [] = []
  offered_in (s ∷ rest) = offered_by s ++ offered_in rest

  -- What the client was given: written, then the message whose write failed, then queued.
  abbrev pub flow : Client V → List V
  flow c = c.written ++ (c.lost ++ c.pending)

  -- A client that was offered `all`: it was given a part of it in order, and all of it unless its
  -- channel is closed or a Broadcast is about to close it; its queue is within the buffer; a message
  -- is lost only if writePump has returned.
  pub record Intact (c : Client V) (all : List V) : Type 0 where
    pub part : IsPart (flow c) all
    pub complete : (c.closed ≡ true) ⊎ ((0 < c.dropping) ⊎ (flow c ≡ all))
    pub bounded : length c.pending ≤ send_buffer
    pub lost_last : (c.returned ≡ true) ⊎ (c.lost ≡ [])

  close-Intact : (c : Client V) (all : List V) → Intact c all → Intact (close_send c) all
  unfolding close_send
  close-Intact c all v = record {
    part = v.part;
    complete = inl refl;
    bounded = v.bounded;
    lost_last = v.lost_last;
  }

  finish-Intact : (c : Client V) (all : List V) → Intact c all → Intact (finish_round c) all
  unfolding finish_round close_send
  finish-Intact c all v = elim (count-cases c.dropping) [
    | inl none_left ↦ rw (none_left, finish_round) v
    | inr (n, more) ↦
        rw (more, finish_round)
          (record {
            part = v.part;
            complete = inl refl;
            bounded = v.bounded;
            lost_last = v.lost_last;
          })
  ]

  -- writePump returns without a message in hand.
  stop-Intact :
      (c : Client V) (all : List V) → Intact c all → Intact (record c { returned = true }) all
  stop-Intact c all v = record {
    part = v.part;
    complete = v.complete;
    bounded = v.bounded;
    lost_last = inl refl;
  }

  nothing_lost : (c : Client V) (all : List V) → Intact c all → c.returned ≡ false → c.lost ≡ []
  nothing_lost c all v running = ground arith

  snoc_flow : (a b c : List V) (x : V) → a ++ (b ++ (c ++ (x ∷ []))) ≡ (a ++ (b ++ c)) ++ (x ∷ [])
  snoc_flow a b c x = simp append_assoc

  -- A message that fits is queued behind what the client was given; an open channel that no
  -- Broadcast is about to close stays complete.
  queue-Intact :
      (c : Client V) (payload : V) (all : List V)
      → (not c.closed && ltb (length c.pending) send_buffer) ≡ true
      → Intact c all
      → Intact (record c { pending = c.pending ++ (payload ∷ []) }) (all ++ (payload ∷ []))
  queue-Intact c payload all fits v =
      let longer = snoc_flow c.written c.lost c.pending payload in
      record {
        part =
            subst (λ xs. IsPart xs (all ++ (payload ∷ []))) (sym longer)
              (append-IsPart payload v.part);
        complete = elim v.complete [
          | inl over ↦ inl over
          | inr (inl doomed) ↦ inr (inl doomed)
          | inr (inr whole) ↦ inr (inr (longer ∙ ap (λ xs. xs ++ (payload ∷ [])) whole))
        ];
        bounded = ground (arith, fits, length-append c.pending (payload ∷ []));
        lost_last = v.lost_last;
      }

  begin-Intact :
      (c : Client V) (payload : V) (all : List V)
      → Intact c all
      → Intact (begin_round c payload) (all ++ (payload ∷ []))
  unfolding begin_round try_send
  begin-Intact c payload all v =
      elim (Bool-cases (not c.closed && ltb (length c.pending) send_buffer)) [
        | inl fits ↦ rw (fits, begin_round, try_send) (queue-Intact c payload all fits v)
        | inr full ↦
            rw (full, begin_round, try_send)
              (record {
                part = skip-IsPart payload v.part;
                complete = inr (inl (omega arith));
                bounded = v.bounded;
                lost_last = v.lost_last;
              })
      ]

  -- A step that leaves what the client was given as it is.
  same-Intact :
      (c after : Client V) (all : List V)
      → flow after ≡ flow c
      → after.closed ≡ c.closed
      → after.dropping ≡ c.dropping
      → length after.pending ≤ length c.pending
      → (after.returned ≡ true) ⊎ (after.lost ≡ [])
      → Intact c all
      → Intact after all
  same-Intact c after all same over doomed shorter lost v = record {
    part = subst (λ xs. IsPart xs all) (sym same) v.part;
    complete = elim v.complete [
      | inl closed ↦ inl (over ∙ closed)
      | inr (inl soon) ↦ inr (inl (omega (arith, doomed, soon)))
      | inr (inr whole) ↦ inr (inr (same ∙ whole))
    ];
    bounded = omega (arith, v.bounded, shorter);
    lost_last = lost;
  }

  written_flow :
      (written lost rest : List V) (m : V)
      → lost ≡ []
      → (written ++ (m ∷ [])) ++ (lost ++ rest) ≡ written ++ (lost ++ (m ∷ rest))
  written_flow written lost rest m e = rw e (append_assoc written (m ∷ []) rest)

  lost_flow :
      (written lost rest : List V) (m : V)
      → lost ≡ []
      → written ++ ((m ∷ []) ++ rest) ≡ written ++ (lost ++ (m ∷ rest))
  lost_flow written lost rest m e = rw e refl

  write-Intact :
      (c : Client V) (all rest : List V) (m : V) (wrote : Bool)
      → c.returned ≡ false
      → c.pending ≡ m ∷ rest
      → Intact c all
      → Intact (pump c wrote) all
  unfolding pump
  write-Intact c all rest m true running queue v =
      rw (running, pump)
        (rw (queue, pump)
          (same-Intact c (record c { pending = rest; written = c.written ++ (m ∷ []) }) all
            (written_flow c.written c.lost rest m (nothing_lost c all v running)
              ∙ ap (λ p. c.written ++ (c.lost ++ p)) (sym queue))
            refl refl (omega (arith, ap length queue)) v.lost_last v))
  write-Intact c all rest m false running queue v =
      rw (running, pump)
        (rw (queue, pump)
          (same-Intact c (record c { pending = rest; lost = m ∷ []; returned = true }) all
            (lost_flow c.written c.lost rest m (nothing_lost c all v running)
              ∙ ap (λ p. c.written ++ (c.lost ++ p)) (sym queue))
            refl refl (omega (arith, ap length queue)) (inl refl) v))

  pump-Intact :
      (c : Client V) (all : List V) (wrote : Bool) → Intact c all → Intact (pump c wrote) all
  pump-Intact c all wrote v = elim (Bool-cases c.returned) [
    | inl gone ↦ subst (λ x. Intact x all) (sym (pump_gone c wrote gone)) v
    | inr running ↦ elim (List-cases c.pending) [
      | inl queue ↦ elim (Bool-cases c.closed) [
        | inl over ↦
            subst (λ x. Intact x all) (sym (pump_ends c wrote queue over running))
              (stop-Intact c all v)
        | inr still ↦ subst (λ x. Intact x all) (sym (pump_waits c wrote queue still)) v
      ]
      | inr (m, rest, queue) ↦ write-Intact c all rest m wrote running queue v
    ]
  ]

  ping-Intact :
      (c : Client V) (all : List V) (wrote : Bool) → Intact c all → Intact (ping c wrote) all
  unfolding ping
  ping-Intact c all wrote v = elim (Bool-cases (c.returned || wrote)) [
    | inl e ↦ rw (e, ping) v
    | inr e ↦ rw (e, ping) (stop-Intact c all v)
  ]

  client_step-Intact :
      (c : Client V) (all : List V) (s : ClientStep V)
      → Intact c all
      → Intact (client_step c s) (all ++ offered_by s)
  unfolding client_step offered_by
  client_step-Intact c all (tried payload) v = begin-Intact c payload all v
  client_step-Intact c all dropped v = rw (append-nil all) (finish-Intact c all v)
  client_step-Intact c all read_ended v = rw (append-nil all) (close-Intact c all v)
  client_step-Intact c all (pumped wrote) v = rw (append-nil all) (pump-Intact c all wrote v)
  client_step-Intact c all (pinged wrote) v = rw (append-nil all) (ping-Intact c all wrote v)

  run_client-keeps :
      (c : Client V) (all : List V) (steps : List (ClientStep V))
      → Intact c all
      → Intact (run_client c steps) (all ++ offered_in steps)
  unfolding run_client offered_in
  run_client-keeps c all [] v = rw (append-nil all) v
  run_client-keeps c all (s ∷ rest) v =
      subst (Intact (run_client (client_step c s) rest))
        (append_assoc all (offered_by s) (offered_in rest))
        (run_client-keeps (client_step c s) (all ++ offered_by s) rest
          (client_step-Intact c all s v))

  -- No gap in a connection that stays: over any interleaving of the halves of Broadcasts' rounds, the
  -- read pump and the write pump, what has been written to a client's connection, then the message
  -- whose write failed, then its queue, are broadcast messages in their order, none twice. They are
  -- all that was broadcast to it, unless its channel is closed or a Broadcast whose send was refused
  -- has yet to close it. The queue never holds more than 32 messages, and a message is lost only once
  -- writePump returned.
  pub run_client-Intact :
      (steps : List (ClientStep V)) → Intact (run_client new_client steps) (offered_in steps)
  run_client-Intact steps = run_client-keeps new_client [] steps (record {
    part = part_nil;
    complete = inr (inr refl);
    bounded = omega arith;
    lost_last = inr refl;
  })
