-- ===== src/Hub/Topics.antt =====
-- The subscribers of the topics of internal/controlplane/ws/hub.go.
use docker_monitoring.Prelude.{
  ℕ, ◌≡◌, ◌≢◌, refl, sym, subst, inl, inr, false, not, ◌&&◌, Option, none, some, List, [], ◌∷◌,
  Text, text_eq, text_eq_iff, lookup, lookup-insert, lookup-delete, ◌==◌, if◌then◌else◌, arith,
  Option-cases, List-cases,
}
use docker_monitoring.Hub.{
  Hub, new_client, new_hub, mem, add, remove, set_client, round_alone, subscribers, subscribe,
  unsubscribe, rounds_alone, broadcast, join, leave,
}
use docker_monitoring.Hub.Delivery.{ClientStep, client_step}

-- No client twice.
abbrev pub Distinct : List ℕ → Type 0
Distinct [] = Unit
Distinct (c ∷ cs) = (mem c cs ≡ false) × Distinct cs

mem-remove : (c d : ℕ) (cs : List ℕ) → mem d (remove c cs) ≡ (mem d cs && not (c == d))
unfolding mem remove
mem-remove c d [] = refl
mem-remove c d (e ∷ es) = ground (arith, mem-remove c d es)

add-Distinct : (c : ℕ) (cs : List ℕ) → Distinct cs → Distinct (add c cs)
unfolding add
add-Distinct c cs v = ground arith

remove-Distinct : (c : ℕ) (cs : List ℕ) → Distinct cs → Distinct (remove c cs)
unfolding remove
remove-Distinct c [] v = v
remove-Distinct c (d ∷ ds) v = ground (arith, mem-remove c d ds, remove-Distinct c ds v.1)

remove-nil : (c : ℕ) → remove c [] ≡ []
unfolding remove
remove-nil c = refl

add-filled : (c : ℕ) (cs : List ℕ) → add c cs ≢ []
unfolding add mem
add-filled c [] = λ e. ground arith
add-filled c (d ∷ ds) = λ e. ground arith

-- The entry that unsubscribe leaves for its topic.
abbrev pub kept : List ℕ → Option (List ℕ)
kept [] = none
kept (d ∷ ds) = some (d ∷ ds)

-- A topic's entry: at least one subscriber, none twice.
abbrev pub IsTopic : List ℕ → Type 0
IsTopic cs = (cs ≢ []) × Distinct cs

module _ {V : Type 0} where
  -- Every topic in the map has a subscriber, and none has a subscriber twice.
  abbrev pub IsTidy : Hub V → Type 0
  IsTidy h = (topic : Text) (cs : List ℕ) → lookup topic h.topics ≡ some cs → IsTopic cs

  subscribers-none :
      (h : Hub V) (topic : Text) → lookup topic h.topics ≡ none → subscribers h topic ≡ []
  unfolding subscribers
  subscribers-none h topic e = ground (arith, e)

  subscribers-some :
      (h : Hub V) (topic : Text) (cs : List ℕ)
      → lookup topic h.topics ≡ some cs
      → subscribers h topic ≡ cs
  unfolding subscribers
  subscribers-some h topic cs e = ground (arith, e)

  subscribers-Distinct : (h : Hub V) (topic : Text) → IsTidy h → Distinct (subscribers h topic)
  subscribers-Distinct h topic v = elim (Option-cases (lookup topic h.topics)) [
    | inl e ↦ subst Distinct (sym (subscribers-none h topic e)) tt
    | inr (cs, e) ↦ subst Distinct (sym (subscribers-some h topic cs e)) (v topic cs e).1
  ]

  rounds_alone-clients :
      (h : Hub V) (payload : V) (cs : List ℕ) (d : ℕ)
      → Distinct cs
      → (rounds_alone h payload cs).clients d
        ≡ (if mem d cs then round_alone (h.clients d) payload else h.clients d)
  unfolding rounds_alone set_client mem
  rounds_alone-clients h payload [] d v = refl
  rounds_alone-clients h payload (c ∷ cs) d v = ground (
    arith,
    rounds_alone-clients (set_client h c (round_alone (h.clients c) payload)) payload cs d v.1,
  )

  -- Broadcast, when no other goroutine runs, offers its payload exactly once to every subscriber of the topic, and changes no
  -- other client: one that is dropped for a full queue or a closed channel stops none of the
  -- others. A value that does not marshal changes nothing.
  pub broadcast-clients :
      (h : Hub V) (topic : Text) (v : Option V) (d : ℕ)
      → IsTidy h
      → (broadcast h topic v).clients d ≡ elim v [
        | none ↦ h.clients d
        | some payload ↦
            if mem d (subscribers h topic) then round_alone (h.clients d) payload else h.clients d
      ]
  unfolding broadcast
  broadcast-clients h topic none d tidy = refl
  broadcast-clients h topic (some payload) d tidy =
      rounds_alone-clients h payload (subscribers h topic) d (subscribers-Distinct h topic tidy)

  lookup-subscribe :
      (h : Hub V) (topic other : Text) (c : ℕ)
      → lookup other (subscribe h topic c).topics ≡ (
          if text_eq topic other then some (add c (subscribers h topic)) else lookup other h.topics)
  unfolding subscribe
  lookup-subscribe h topic other c =
      lookup-insert topic other (add c (subscribers h topic)) h.topics

  lookup-unsubscribe :
      (h : Hub V) (topic other : Text) (c : ℕ)
      → lookup other (unsubscribe h topic c).topics ≡ (
          if text_eq topic other
          then kept (remove c (subscribers h topic))
          else lookup other h.topics)
  unfolding unsubscribe
  lookup-unsubscribe h topic other c = elim (Option-cases (lookup topic h.topics)) [
    | inl e ↦ ground (arith, e, subscribers-none h topic e, text_eq_iff topic other, remove-nil c)
    | inr (cs, e) ↦ elim (List-cases (remove c cs)) [
      | inl gone ↦
          ground (arith, e, gone, subscribers-some h topic cs e, lookup-delete topic other h.topics)
      | inr (d, ds, left) ↦ ground (
        arith,
        e,
        left,
        subscribers-some h topic cs e,
        lookup-insert topic other (d ∷ ds) h.topics,
      )
    ]
  ]

  -- Subscribing and unsubscribing change the topic's subscribers by that client, and no other topic;
  -- a topic whose last subscriber leaves has no entry any more.
  pub subscribers-changes :
      (h : Hub V) (topic other : Text) (c : ℕ)
      → (subscribers (subscribe h topic c) other
          ≡ (if text_eq topic other then add c (subscribers h topic) else subscribers h other))
        × (subscribers (unsubscribe h topic c) other
            ≡ (if text_eq topic other then remove c (subscribers h topic) else subscribers h other))
        × (lookup topic (unsubscribe h topic c).topics ≡ kept (remove c (subscribers h topic)))
  unfolding subscribers
  subscribers-changes h topic other c = (
    ground (arith, lookup-subscribe h topic other c),
    ground (arith, lookup-unsubscribe h topic other c),
    ground (arith, text_eq_iff topic topic, lookup-unsubscribe h topic topic c),
  )

  subscribe-IsTidy : (h : Hub V) (topic : Text) (c : ℕ) → IsTidy h → IsTidy (subscribe h topic c)
  subscribe-IsTidy h topic c v other cs e = ground (
    arith,
    e,
    lookup-subscribe h topic other c,
    v other cs,
    add-filled c (subscribers h topic),
    add-Distinct c (subscribers h topic) (subscribers-Distinct h topic v),
  )

  unsubscribe-IsTidy :
      (h : Hub V) (topic : Text) (c : ℕ) → IsTidy h → IsTidy (unsubscribe h topic c)
  unsubscribe-IsTidy h topic c v other cs e = ground (
    arith,
    e,
    lookup-unsubscribe h topic other c,
    v other cs,
    remove-Distinct c (subscribers h topic) (subscribers-Distinct h topic v),
  )

-- A step of the server: a connection joins a topic, ends, or has a step of its own.
pub data HubStep (V : Type 0) : Type 0 where
  joins : Text → HubStep V
  leaves : Text → ℕ → HubStep V
  acts : ℕ → ClientStep V → HubStep V

module _ {V : Type 0} where
  unfoldable pub hub_step : Hub V → HubStep V → Hub V
  hub_step h (joins topic) = (join h topic).0
  hub_step h (leaves topic c) = leave h topic c
  hub_step h (acts c s) = set_client h c (client_step (h.clients c) s)

  unfoldable pub run_hub : Hub V → List (HubStep V) → Hub V
  run_hub h [] = h
  run_hub h (s ∷ rest) = run_hub (hub_step h s) rest

  hub_step-IsTidy : (h : Hub V) (s : HubStep V) → IsTidy h → IsTidy (hub_step h s)
  unfolding hub_step join leave set_client
  hub_step-IsTidy h (joins topic) v =
      subscribe-IsTidy (set_client h h.next new_client) topic h.next v
  hub_step-IsTidy h (leaves topic c) v = unsubscribe-IsTidy h topic c v
  hub_step-IsTidy h (acts c s) v = v

  run_hub-keeps : (h : Hub V) (steps : List (HubStep V)) → IsTidy h → IsTidy (run_hub h steps)
  unfolding run_hub
  run_hub-keeps h [] v = v
  run_hub-keeps h (s ∷ rest) v = run_hub-keeps (hub_step h s) rest (hub_step-IsTidy h s v)

  -- Over any steps of a server that starts empty, every topic in the map has at least one
  -- subscriber and none twice: topics that nobody watches do not pile up.
  pub run_hub-IsTopic :
      (steps : List (HubStep V)) (topic : Text) (cs : List ℕ)
      → lookup topic (run_hub new_hub steps).topics ≡ some cs
      → IsTopic cs
  unfolding lookup
  run_hub-IsTopic steps topic cs e =
      run_hub-keeps new_hub steps (λ topic cs e. ground arith) topic cs e
