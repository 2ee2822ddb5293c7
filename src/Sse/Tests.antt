-- ===== src/Sse/Tests.antt =====
-- The broker of the event stream at concrete clients.
use mc_gatekeeper.Prelude.{ℕ, none, some, [], ◌∷◌, ◌≡◌, ◌↔◌, refl, take_at}
use mc_gatekeeper.Sse.{
  Broker, notifying, new_server, publish, join, notify, receive, deliver, finish, put, listen, step,
  run,
}
use mc_gatekeeper.Sse.Jam.{IsJammed, IsStuck, step-IsStuck_iff, run-jams}

-- Two clients are sent the statistics, the second first.
run-delivers :
    run {E = ℕ}
      (join 1 (some 70)
        ∷ notify
        ∷ receive
        ∷ deliver 0
        ∷ finish
        ∷ join 2 none
        ∷ publish 71
        ∷ receive
        ∷ deliver 0
        ∷ deliver 0
        ∷ finish
        ∷ [])
      new_server
    ≡ some (record new_server { clients = 2 ∷ 1 ∷ []; sent = (1, 71) ∷ (2, 71) ∷ (1, 70) ∷ [] })
unfolding run step listen put take_at
run-delivers = refl

abbrev full : Broker ℕ
full = record new_server { notifier = some 70; clients = 1 ∷ []; phase = notifying 71 }

step-IsStuck_iff_example : IsStuck full ↔ IsJammed full
step-IsStuck_iff_example = step-IsStuck_iff full

-- It comes to that from the start.
new_server-jams :
    (q : Broker ℕ) × (run (publish 70 ∷ join 1 (some 71) ∷ []) new_server ≡ some q) × IsStuck q
new_server-jams = run-jams new_server 1 70 71 refl refl
