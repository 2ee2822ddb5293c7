-- ===== src/Sse.antt =====
-- server/server/sse/sse.go: the broker of the event stream, with the callback that main.go gives
-- it, BroadcastStats of server/cache/cache.go. A client's channel is a number; `E` is the type of an
-- event, the statistics as JSON. The handler of a client reads its channel for ever.
mod Jam
mod Tests
use mc_gatekeeper.Prelude.{
  ℕ, not, nat_eq, Option, none, some, List, [], ◌∷◌, take_at, if◌then◌else◌,
}

abbrev pub without : ℕ → List ℕ → List ℕ
without c [] = []
without c (d ∷ rest) = if nat_eq c d then without c rest else d ∷ without c rest

-- Where the goroutine of `Listen` is: at the `select`, at the send of the callback, or in the loop
-- over the clients that are still to be sent an event.
pub data Phase (E : Type 0) : Type 0 where
  selecting : Phase E
  notifying : E → Phase E
  sending : E → List ℕ → Phase E

-- `Broker`: `Notifier` has room for one event. And what the clients have been sent, the last
-- first.
pub record Broker (E : Type 0) : Type 0 where
  pub notifier : Option E
  pub clients : List ℕ
  pub phase : Phase E
  pub sent : List (ℕ × E)

-- What a goroutine does next: one publishes the statistics; the others are those of `Listen`. A
-- client that joins carries what its callback reads, none where that fails; the loop over the map
-- of the clients takes them in any order.
pub data Action (E : Type 0) : Type 0 where
  publish : E → Action E
  join : ℕ → Option E → Action E
  leave : ℕ → Action E
  notify receive : Action E
  deliver : ℕ → Action E
  finish : Action E

module _ {E : Type 0} where
  -- `NewServer`
  abbrev pub new_server : Broker E
  new_server = record { notifier = none; clients = []; phase = selecting; sent = [] }

  -- The end of `BroadcastStats`, a send that waits while the channel is full.
  unfoldable pub put : E → Broker E → Option (Broker E)
  put e s = elim s.notifier [ none ↦ some (record s { notifier = some e }) | some _ ↦ none ]

  abbrev pub joined : ℕ → Option E → Broker E → Broker E
  joined c none s = record s { clients = c ∷ s.clients }
  joined c (some e) s = record s { clients = c ∷ s.clients; phase = notifying e }

  abbrev pub received : Option E → Broker E → Option (Broker E)
  received none s = none
  received (some e) s = some (record s { notifier = none; phase = sending e s.clients })

  abbrev pub delivered : E → Option (ℕ × List ℕ) → Broker E → Option (Broker E)
  delivered e none s = none
  delivered e (some (c, rest)) s =
      some (record s { phase = sending e rest; sent = (c, e) ∷ s.sent })

  -- `Listen` in a phase: none where what it would do cannot happen.
  unfoldable pub listen : Phase E → Action E → Broker E → Option (Broker E)
  unfolding put take_at
  listen selecting (join c answer) s = some (joined c answer s)
  listen selecting (leave c) s = some (record s { clients = without c s.clients })
  listen selecting receive s = received s.notifier s
  listen (notifying e) notify s = put e (record s { phase = selecting })
  listen (sending e cs) (deliver n) s = delivered e (take_at n cs) s
  listen (sending e []) finish s = some (record s { phase = selecting })
  listen _ _ s = none

  unfoldable pub step : Action E → Broker E → Option (Broker E)
  unfolding listen
  step (publish e) s = put e s
  step a s = listen s.phase a s

  -- The state after some actions, where all of them can happen.
  unfoldable pub run : List (Action E) → Broker E → Option (Broker E)
  unfolding step
  run [] s = some s
  run (a ∷ rest) s = elim (step a s) [ none ↦ none | some s' ↦ run rest s' ]
