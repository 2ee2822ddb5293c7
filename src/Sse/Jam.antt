-- ===== src/Sse/Jam.antt =====
-- When the broker comes to a standstill.
use mc_gatekeeper.Prelude.{
  ℕ, Option, none, some, [], ◌∷◌, ◌≡◌, ◌↔◌, refl, sym, ap, ◌∙◌, subst, take_at,
}
use mathlib.Core.Option.{some-ne-none}
use mc_gatekeeper.Sse.{
  Phase, selecting, notifying, sending, Broker, Action, publish, join, leave, notify, receive,
  deliver, finish, put, listen, step, run,
}

module _ {E : Type 0} where
  -- `Listen` waits in the callback for room in a channel that only it empties.
  abbrev pub IsJammed : Broker E → Type 0
  IsJammed s = (e : E) × (e' : E) × (s.phase ≡ notifying e) × (s.notifier ≡ some e')

  -- No goroutine of the broker can go on.
  abbrev pub IsStuck : Broker E → Type 0
  IsStuck s = (a : Action E) → step a s ≡ none

  -- A state in another phase, with another event in the channel.
  abbrev at : Broker E → Option E → Phase E → Broker E
  at s n phase = record s { notifier = n; phase = phase }

  full-IsStuck : (s : Broker E) (e e' : E) → IsStuck (at s (some e') (notifying e))
  unfolding step listen put
  full-IsStuck s e e' (publish f) = refl
  full-IsStuck s e e' (join c answer) = refl
  full-IsStuck s e e' (leave c) = refl
  full-IsStuck s e e' notify = refl
  full-IsStuck s e e' receive = refl
  full-IsStuck s e e' (deliver n) = refl
  full-IsStuck s e e' finish = refl

  jammed-IsStuck : (s : Broker E) → IsJammed s → IsStuck s
  jammed-IsStuck s (e, e', phase, full) =
      subst IsStuck (ap (λ n. at s n (notifying e)) (sym full) ∙ ap (at s s.notifier) (sym phase))
        (full-IsStuck s e e')

  stuck-IsJammed :
      (s : Broker E) (n : Option E) (phase : Phase E)
      → IsStuck (at s n phase)
      → IsJammed (at s n phase)
  unfolding step listen put take_at
  stuck-IsJammed s n selecting h = absurd (some-ne-none _ (h (leave 0)))
  stuck-IsJammed s (some e') (notifying e) h = (e, e', refl, refl)
  stuck-IsJammed s none (notifying e) h = absurd (some-ne-none _ (h notify))
  stuck-IsJammed s n (sending e []) h = absurd (some-ne-none _ (h finish))
  stuck-IsJammed s n (sending e (c ∷ cs)) h = absurd (some-ne-none _ (h (deliver 0)))

  -- The broker can do nothing more, and no goroutine can publish, exactly where the callback of a
  -- client that joined waits to send while an event waits in the channel.
  pub step-IsStuck_iff : (s : Broker E) → IsStuck s ↔ IsJammed s
  step-IsStuck_iff s = (stuck-IsJammed s s.notifier s.phase, jammed-IsStuck s)

  -- From any state at the `select` with room in the channel it comes to a standstill by two actions:
  -- statistics are published, and a client whose callback can read them joins before they are
  -- received.
  pub run-jams :
      (s : Broker E) (c : ℕ) (e e' : E)
      → s.phase ≡ selecting
      → s.notifier ≡ none
      → (q : Broker E) × (run (publish e ∷ join c (some e') ∷ []) s ≡ some q) × IsStuck q
  unfolding step listen put run
  run-jams s c e e' idle room =
      subst Jams (ap (λ n. at s n selecting) (sym room) ∙ ap (at s s.notifier) (sym idle)) (
        record s { notifier = some e; clients = c ∷ s.clients; phase = notifying e' },
        refl,
        full-IsStuck (record s { clients = c ∷ s.clients }) e' e,
      )
    where
      Jams : Broker E → Type 0
      Jams s = (q : Broker E) × (run (publish e ∷ join c (some e') ∷ []) s ≡ some q) × IsStuck q
