-- ===== src/Dashboard/Metrics/Stream.antt =====
-- The stream of statistics: the listeners of metrics.js and the end of the source.
use mc_gatekeeper.Prelude.{
  Bool, true, false, Option, none, some, List, [], ◌∷◌, any, if◌then◌else◌, ◌≡◌, refl, ap,
}
use mc_gatekeeper.Dashboard.Metrics.{Stats}

-- The component's state, and whether the source was closed.
pub record MetricsPage (F : Type 0) : Type 0 where
  pub stats : Option (Stats F)
  pub closed : Bool

abbrev pub mounted : {F : Type 0} → MetricsPage F
mounted = record { stats = none; closed = false }

-- `message data`: the server sends statistics; `data` is none where `JSON.parse` throws, and
-- `some none` where it gives `null`.
pub data Event (F : Type 0) : Type 0 where
  message : Option (Option (Stats F)) → Event F
  closed_connection unmount : Event F

module _ {F : Type 0} where
  -- `updateStats`
  unfoldable pub update_stats : Option (Option (Stats F)) → MetricsPage F → MetricsPage F
  update_stats none p = p
  update_stats (some stats) p = record p { stats = stats }

  -- The listener of "closedConnection": `this.source` is undefined, so `close` throws.
  unfoldable pub on_closed_connection : MetricsPage F → MetricsPage F
  on_closed_connection p = p

  unfoldable pub component_will_unmount : MetricsPage F → MetricsPage F
  component_will_unmount p = record p { closed = true }

  -- A closed source calls no listener.
  unfoldable pub step : Event F → MetricsPage F → MetricsPage F
  unfolding update_stats on_closed_connection
  step (message stats) p = if p.closed then p else update_stats stats p
  step closed_connection p = if p.closed then p else on_closed_connection p
  step unmount p = component_will_unmount p

  unfoldable pub run : List (Event F) → MetricsPage F → MetricsPage F
  run [] p = p
  run (e ∷ es) p = run es (step e p)

  abbrev pub is_unmount : Event F → Bool
  is_unmount unmount = true
  is_unmount _ = false

  -- The last statistics that could be read, before the page goes away.
  abbrev pub latest : Option (Stats F) → List (Event F) → Option (Stats F)
  latest s [] = s
  latest s (message none ∷ es) = latest s es
  latest s (message (some s') ∷ es) = latest s' es
  latest s (closed_connection ∷ es) = latest s es
  latest s (unmount ∷ es) = s

  run-closed :
      (es : List (Event F)) (s : Option (Stats F))
      → run es (record { stats = s; closed = true }) ≡ record { stats = s; closed = true }
  unfolding run step component_will_unmount
  run-closed [] s = refl
  run-closed (message d ∷ es) s = run-closed es s
  run-closed (closed_connection ∷ es) s = run-closed es s
  run-closed (unmount ∷ es) s = run-closed es s

  run-open :
      (es : List (Event F)) (s : Option (Stats F))
      → run es (record { stats = s; closed = false })
        ≡ record { stats = latest s es; closed = any is_unmount es }
  unfolding run step update_stats on_closed_connection component_will_unmount
  run-open [] s = refl
  run-open (message none ∷ es) s = run-open es s
  run-open (message (some s') ∷ es) s = run-open es s'
  run-open (closed_connection ∷ es) s = run-open es s
  run-open (unmount ∷ es) s = run-closed es s

  -- Whatever the server sends, the page has the last statistics that could be read before it was
  -- unmounted, and the source is closed by the unmount alone, never by the server's announcement
  -- that the connection is closed.
  pub run-mounted :
      (es : List (Event F))
      → ((run es mounted).stats ≡ latest none es) × ((run es mounted).closed ≡ any is_unmount es)
  run-mounted es = (
    ap (λ (p : MetricsPage F). p.stats) (run-open es none),
    ap (λ (p : MetricsPage F). p.closed) (run-open es none),
  )
