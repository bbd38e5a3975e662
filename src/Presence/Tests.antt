-- ===== src/Presence/Tests.antt =====
-- Two accounts, one of which leaves.
use nextendo_demonware.Common.{[], ℕ, ◌≡◌, ◌∷◌, List, refl, none, some}
use nextendo_demonware.Presence.Table.{
  Player, Rich, lookup, insert, erase, identify, publish, disconnect, forget, leaving, elsewhere,
  drop_presence,
}
use nextendo_demonware.Presence.Service.{AccountId, rich_hits}
use nextendo_demonware.Presence.Shown.{AllAnswer, rich_hits-AllAnswer}
use nextendo_demonware.Presence.Refines.{
  Event, signs_on, disconnects, forgets, publishes, run, described_run, no_tables, nobody,
  run-described_run,
}

abbrev player : ℕ → Player
player pid = record { username = pid ∷ []; pid = pid; title = 5775 }

abbrev busy : Rich
busy = record { platform = 1 ∷ []; flag = 1; blob = 9 ∷ [] }

abbrev history : List Event
history =
    signs_on 1 (player 70)
    ∷ signs_on 2 (player 80)
    ∷ publishes 70 busy
    ∷ publishes 80 busy
    ∷ disconnects 1
    ∷ forgets 70
    ∷ []

abbrev asked : List AccountId
asked = record { id = 70; platform = [] } ∷ record { id = 80; platform = [] } ∷ []

rich_hits-AllAnswer_example :
    AllAnswer 80
      (run history no_tables).tables
      asked
      (rich_hits 80 (run history no_tables).tables asked)
rich_hits-AllAnswer_example = rich_hits-AllAnswer 80 (run history no_tables).tables asked

run-described_run_example :
    lookup 70 (run history no_tables).tables.rich ≡ (described_run history nobody).presence 70
run-described_run_example = run-described_run history 70

-- The account signs on and publishes while a forgetting is due: its presence is erased, although it is
-- connected.
abbrev reconnects : List Event
reconnects =
    signs_on 1 (player 70)
    ∷ disconnects 1
    ∷ signs_on 2 (player 70)
    ∷ publishes 70 busy
    ∷ forgets 70
    ∷ []

reconnected_is_forgotten :
    let t = (run reconnects no_tables).tables in
    (lookup 70 t.rich ≡ none) × (lookup 2 t.online ≡ some (player 70))
unfolding lookup identify publish disconnect forget insert erase leaving elsewhere drop_presence
reconnected_is_forgotten = (refl, refl)
