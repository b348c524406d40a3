-- ===== src/Examples/Sockets.antt =====
-- The hub on concrete connections.
use docker_monitoring.Prelude.{
  ℕ, ◌≡◌, ◌++◌, map, refl, true, some, List, [], ◌∷◌, Text, codes, text_eq, lookup, insert, ◌==◌,
  arith, if◌then◌else◌,
}
use docker_monitoring.Hub.{
  Client, Hub, begin_round, finish_round, try_send, close_send, pump, new_client, new_hub, mem, add,
  join, set_client, subscribers, subscribe,
}
use docker_monitoring.Hub.Delivery.{
  ClientStep, client_step, tried, dropped, read_ended, pumped, run_client, offered_in, Intact,
  run_client-Intact,
}
use docker_monitoring.Hub.Topics.{
  HubStep, joins, acts, run_hub, run_hub-IsTopic, IsTopic, IsTidy, hub_step,
}

abbrev topic : Text
topic = codes "events"

abbrev thirty_three : List (ClientStep ℕ)
thirty_three = map tried (
    1 ∷ 2 ∷ 3 ∷ 4 ∷ 5 ∷ 6 ∷ 7 ∷ 8 ∷ 9 ∷ 10 ∷ 11 ∷ 12 ∷ 13 ∷ 14 ∷ 15 ∷ 16 ∷ 17 ∷ 18 ∷ 19 ∷ 20 ∷ 21
    ∷ 22 ∷ 23 ∷ 24 ∷ 25 ∷ 26 ∷ 27 ∷ 28 ∷ 29 ∷ 30 ∷ 31 ∷ 32 ∷ 33 ∷ [])

-- The 33rd message is refused; before that Broadcast closes the channel, writePump takes a message
-- and another Broadcast queues the 34th.
abbrev session : List (ClientStep ℕ)
session = thirty_three ++ (pumped true ∷ tried 34 ∷ dropped ∷ pumped true ∷ read_ended ∷ [])

run_client-Intact_example : Intact (run_client new_client session) (offered_in session)
run_client-Intact_example = run_client-Intact session

-- A later message is queued behind the gap.
gap :
    (run_client new_client session).pending
    ≡ 3 ∷ 4 ∷ 5 ∷ 6 ∷ 7 ∷ 8 ∷ 9 ∷ 10 ∷ 11 ∷ 12 ∷ 13 ∷ 14 ∷ 15 ∷ 16 ∷ 17 ∷ 18 ∷ 19 ∷ 20 ∷ 21 ∷ 22
      ∷ 23 ∷ 24 ∷ 25 ∷ 26 ∷ 27 ∷ 28 ∷ 29 ∷ 30 ∷ 31 ∷ 32 ∷ 34 ∷ []
unfolding run_client client_step begin_round finish_round try_send close_send pump
gap = refl

abbrev closing : Client ℕ
closing = record new_client { pending = 7 ∷ 8 ∷ []; closed = true }

abbrev steps : List (HubStep ℕ)
steps = joins topic ∷ joins topic ∷ acts 0 read_ended ∷ []

two_join : lookup topic (run_hub new_hub steps).topics ≡ some (1 ∷ 0 ∷ [])
unfolding run_hub hub_step join set_client subscribe subscribers add mem insert lookup text_eq
two_join = refl

run_hub-IsTopic_example : IsTopic (1 ∷ 0 ∷ [])
run_hub-IsTopic_example = run_hub-IsTopic steps topic (1 ∷ 0 ∷ []) two_join

abbrev watched : Hub ℕ
watched = record {
  topics = (topic, 1 ∷ 0 ∷ []) ∷ [];
  clients = λ c. if c == 0 then closing else new_client;
  next = 2;
}

watched-IsTidy : IsTidy watched
unfolding lookup mem
watched-IsTidy other cs e = ground arith
