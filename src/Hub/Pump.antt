-- ===== src/Hub/Pump.antt =====
-- writePump of internal/controlplane/ws/hub.go, round by round.
use docker_monitoring.Prelude.{
  ℕ, suc, ◌≡◌, refl, ◌∙◌, ap, Bool, true, false, List, [], ◌∷◌, ◌++◌, append_assoc, append-nil,
  length, ltb, arith, Bool-cases, List-cases, inl, inr,
}
use docker_monitoring.Hub.{Client, pump, ping}

module _ {V : Type 0} where
  pub pump_gone : (c : Client V) (wrote : Bool) → c.returned ≡ true → pump c wrote ≡ c
  unfolding pump
  pump_gone c wrote gone = ground arith

  pub pump_waits :
      (c : Client V) (wrote : Bool) → c.pending ≡ [] → c.closed ≡ false → pump c wrote ≡ c
  unfolding pump
  pump_waits c wrote queue still = ground arith

  pub pump_ends :
      (c : Client V) (wrote : Bool)
      → c.pending ≡ []
      → c.closed ≡ true
      → c.returned ≡ false
      → pump c wrote ≡ record c { returned = true }
  unfolding pump
  pump_ends c wrote queue over running = ground arith

  pub pump_writes :
      (c : Client V) (m : V) (rest : List V)
      → c.pending ≡ m ∷ rest
      → c.returned ≡ false
      → pump c true ≡ record c { pending = rest; written = c.written ++ (m ∷ []) }
  unfolding pump
  pump_writes c m rest queue running = ground arith

  -- As many rounds of writePump as a queue has messages, and one more, all of whose writes succeed.
  unfoldable pub drain : List V → Client V → Client V
  drain [] c = pump c true
  drain (m ∷ rest) c = drain rest (pump c true)

  -- Closing loses nothing that was queued: on a closed channel, writePump writes the whole queue, in
  -- order, and returns, when its writes succeed.
  pub drain_closed :
      (queue : List V) (c : Client V)
      → c.pending ≡ queue
      → c.closed ≡ true
      → c.returned ≡ false
      → drain queue c ≡ record c { pending = []; written = c.written ++ queue; returned = true }
  unfolding drain
  drain_closed [] c q over running =
      pump_ends c true q over running ∙ ground (arith, append-nil c.written)
  drain_closed (m ∷ rest) c q over running =
      ap (drain rest) (pump_writes c m rest q running)
      ∙ drain_closed rest (record c { pending = rest; written = c.written ++ (m ∷ []) }) refl over
          running
      ∙ ap (λ (xs : List V). record c { pending = []; written = xs; returned = true })
          (append_assoc c.written (m ∷ []) rest)

-- A round of writePump's select: on the send channel or on the ticker, and whether the write
-- succeeds.
pub data Round : Type 0 where
  sends : Bool → Round
  pings : Bool → Round

module _ {V : Type 0} where
  unfoldable pub run_pump : Client V → List Round → Client V
  unfolding pump ping
  run_pump c [] = c
  run_pump c (sends wrote ∷ rest) = run_pump (pump c wrote) rest
  run_pump c (pings wrote ∷ rest) = run_pump (ping c wrote) rest

unfoldable pub sends_in : List Round → ℕ
sends_in [] = 0
sends_in (sends wrote ∷ rest) = suc (sends_in rest)
sends_in (pings wrote ∷ rest) = sends_in rest

module _ {V : Type 0} where
  run_pump-returned :
      (c : Client V) (rounds : List Round) → c.returned ≡ true → (run_pump c rounds).returned ≡ true
  unfolding run_pump pump ping
  run_pump-returned c [] gone = gone
  run_pump-returned c (sends wrote ∷ rest) gone = ground (arith, run_pump-returned c rest gone)
  run_pump-returned c (pings wrote ∷ rest) gone = ground (arith, run_pump-returned c rest gone)

module _ {V : Type 0} where
  -- writePump does not outlive its client: once the send channel is closed, the pump has returned
  -- after as many rounds on that channel as it holds messages, and one more, whichever writes
  -- succeed and however many ticks come in between.
  pub pump_terminates :
      (c : Client V) (rounds : List Round)
      → c.closed ≡ true
      → ltb (length c.pending) (sends_in rounds) ≡ true
      → (run_pump c rounds).returned ≡ true
  unfolding run_pump sends_in pump ping
  pump_terminates c [] over enough = absurd (ground arith)
  pump_terminates c (pings true ∷ rest) over enough =
      ground (arith, pump_terminates c rest over enough)
  pump_terminates c (pings false ∷ rest) over enough =
      run_pump-returned (ping c false) rest (ground arith)
  pump_terminates c (sends true ∷ rest) over enough = elim (Bool-cases c.returned) [
    | inl gone ↦ run_pump-returned (pump c true) rest (ground arith)
    | inr running ↦ elim (List-cases c.pending) [
      | inl none_left ↦ run_pump-returned (pump c true) rest (ground arith)
      | inr (m, ms, more) ↦ pump_terminates (pump c true) rest (ground arith) (ground arith)
    ]
  ]
  pump_terminates c (sends false ∷ rest) over enough =
      run_pump-returned (pump c false) rest (elim (List-cases c.pending) [
        | inl none_left ↦ ground arith
        | inr (m, ms, more) ↦ ground arith
      ])
