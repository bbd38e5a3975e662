-- ===== src/Presence/Refines.antt =====
-- The tables under any interleaving of sign-ons, departures and publications, against a description in
-- which the presence of an account is a function (friends.go, ctr_presence.go).
use nextendo_demonware.Common.{
  [], ℕ, ◌+◌, ◌-◌, ◌≡◌, refl, ap, ◌∙◌, Bool, true, false, not, ◌&&◌, List, ◌∷◌, Option, none, some,
  ◌==◌, if◌then◌else◌, arith, Bool-cases, inl, inr,
}
use nextendo_demonware.Common.Select.{contains, remove_first}
use nextendo_demonware.Presence.Table.{
  Player, Rich, lookup, erase, insert, elsewhere, leaving_of, leaving, drop_presence, Store,
  disconnect, forget, identify, publish,
}
use nextendo_demonware.Presence.Maps.{
  lookup-erase, lookup-insert, count, count-same, contains-count, count-remove_first,
}

abbrev belongs : ℕ → Option Player → Bool
belongs id none = false
belongs id (some p) = p.pid == id

-- Whether the connection is the account's, and no other is.
abbrev last_of : ℕ → ℕ → List (ℕ × Player) → Bool
last_of conn id players =
    not (id == 0) && belongs id (lookup conn players) && not (elsewhere conn id players)

-- What happens to the tables, each step under its lock.
pub data Event : Type 0 where
  signs_on : ℕ → Player → Event
  disconnects : ℕ → Event
  forgets : ℕ → Event
  publishes : ℕ → Rich → Event

abbrev pub step : Event → Store → Store
step (signs_on conn player) s = record s { tables = identify conn player s.tables }
step (disconnects conn) s = disconnect conn s
step (forgets pid) s = forget pid s
step (publishes id r) s = record s { tables = publish id r s.tables }

abbrev pub run : List Event → Store → Store
run [] s = s
run (e ∷ es) s = run es (step e s)

-- The description: the presence of an account is what was last published under its id, by whatever
-- connection, unless a forgetting that was due has been carried out since. One is due for each time
-- that the account's last connection was removed.
pub record Described : Type 0 where
  pub players : List (ℕ × Player)
  pub presence : ℕ → Option Rich
  pub due : ℕ → ℕ

abbrev described_step : Event → Described → Described
described_step (signs_on conn player) d = record d { players = insert conn player d.players }
described_step (disconnects conn) d = record d {
  players = erase conn d.players;
  due = λ id. if last_of conn id d.players then d.due id + 1 else d.due id;
}
described_step (forgets pid) d = record d {
  presence = λ id. if pid == id && not (d.due id == 0) then none else d.presence id;
  due = λ id. if pid == id then d.due id - 1 else d.due id;
}
described_step (publishes id r) d = record d {
  presence = λ j. if id == j then some r else d.presence j;
}

abbrev pub described_run : List Event → Described → Described
described_run [] d = d
described_run (e ∷ es) d = described_run es (described_step e d)

-- The tables are as described.
record Agrees (s : Store) (d : Described) : Type 0 where
  same_players : s.tables.online ≡ d.players
  same_presence : (id : ℕ) → lookup id s.tables.rich ≡ d.presence id
  same_due : (id : ℕ) → count id s.due ≡ d.due id

leaving-last_of :
    (conn id : ℕ) (players : List (ℕ × Player))
    → (leaving conn players == id && not (id == 0)) ≡ last_of conn id players
unfolding leaving
leaving-last_of conn id players = go (lookup conn players)
  where
    go :
        (o : Option Player)
        → (leaving_of conn players o == id && not (id == 0))
          ≡ (not (id == 0) && belongs id o && not (elsewhere conn id players))
    go none = ground arith
    go (some p) = elim (Bool-cases (p.pid == id)) [
      | inl f ↦
          let same : elsewhere conn p.pid players ≡ elsewhere conn id players =
            ap (λ n. elsewhere conn n players) (ground arith) in
          ground (arith, same)
      | inr f ↦ ground arith
    ]

disconnect-count :
    (conn id : ℕ) (s : Store)
    → count id (disconnect conn s).due
      ≡ (if last_of conn id s.tables.online then count id s.due + 1 else count id s.due)
unfolding disconnect
disconnect-count conn id s = ground (arith, leaving-last_of conn id s.tables.online)

abbrev forgotten : ℕ → Store → Store
forgotten pid s = record {
  tables = drop_presence pid s.tables;
  due = remove_first (λ i. i == pid) s.due;
}

forget-due : (pid : ℕ) (s : Store) → contains pid s.due ≡ true → forget pid s ≡ forgotten pid s
unfolding forget
forget-due pid s h = ap (λ b. if b then forgotten pid s else s) h

forget-not_due : (pid : ℕ) (s : Store) → contains pid s.due ≡ false → forget pid s ≡ s
unfolding forget
forget-not_due pid s h = ap (λ b. if b then forgotten pid s else s) h

forget-lookup :
    (pid id : ℕ) (s : Store)
    → lookup id (forget pid s).tables.rich
      ≡ (if pid == id && not (count id s.due == 0) then none else lookup id s.tables.rich)
unfolding drop_presence
forget-lookup pid id s = elim (Bool-cases (contains pid s.due)) [
  | inl h ↦
      ap (λ (s : Store). lookup id s.tables.rich) (forget-due pid s h)
      ∙ ground (
        arith,
        lookup-erase id pid s.tables.rich,
        contains-count pid s.due,
        count-same pid id s.due,
      )
  | inr h ↦
      ap (λ (s : Store). lookup id s.tables.rich) (forget-not_due pid s h)
      ∙ ground (arith, contains-count pid s.due, count-same pid id s.due)
]

forget-count :
    (pid id : ℕ) (s : Store)
    → count id (forget pid s).due ≡ (if pid == id then count id s.due - 1 else count id s.due)
forget-count pid id s = elim (Bool-cases (contains pid s.due)) [
  | inl h ↦
      ap (λ (s : Store). count id s.due) (forget-due pid s h) ∙ count-remove_first pid id s.due h
  | inr h ↦
      ap (λ (s : Store). count id s.due) (forget-not_due pid s h)
      ∙ ground (arith, contains-count pid s.due, count-same pid id s.due)
]

forget-online : (pid : ℕ) (s : Store) → (forget pid s).tables.online ≡ s.tables.online
unfolding drop_presence
forget-online pid s = elim (Bool-cases (contains pid s.due)) [
  | inl h ↦ ap (λ (s : Store). s.tables.online) (forget-due pid s h)
  | inr h ↦ ap (λ (s : Store). s.tables.online) (forget-not_due pid s h)
]

step-Agrees :
    (e : Event) (s : Store) (d : Described) → Agrees s d → Agrees (step e s) (described_step e d)
unfolding identify publish
step-Agrees (signs_on conn player) s d h = record {
  same_players = ap (insert conn player) h.same_players;
  same_presence = h.same_presence;
  same_due = h.same_due;
}
step-Agrees (publishes id r) s d h = record {
  same_players = h.same_players;
  same_presence = λ j.
      lookup-insert j id r s.tables.rich
      ∙ ap (λ (o : Option Rich). if id == j then some r else o) (h.same_presence j);
  same_due = h.same_due;
}
step-Agrees (disconnects conn) s d h = record {
  same_players = unfold disconnect in ap (erase conn) h.same_players;
  same_presence = unfold disconnect in h.same_presence;
  same_due = λ id.
      disconnect-count conn id s
      ∙ ap
          (λ (players : List (ℕ × Player)).
            if last_of conn id players then count id s.due + 1 else count id s.due)
          h.same_players
      ∙ ap (λ n. if last_of conn id d.players then n + 1 else n) (h.same_due id);
}
step-Agrees (forgets pid) s d h = record {
  same_players = forget-online pid s ∙ h.same_players;
  same_presence = λ id.
      forget-lookup pid id s
      ∙ ap (λ n. if pid == id && not (n == 0) then none else lookup id s.tables.rich)
          (h.same_due id)
      ∙ ap (λ (o : Option Rich). if pid == id && not (d.due id == 0) then none else o)
          (h.same_presence id);
  same_due = λ id. forget-count pid id s ∙ ap (λ n. if pid == id then n - 1 else n) (h.same_due id);
}

run-Agrees :
    (es : List Event) (s : Store) (d : Described)
    → Agrees s d
    → Agrees (run es s) (described_run es d)
run-Agrees [] s d h = h
run-Agrees (e ∷ es) s d h = run-Agrees es (step e s) (described_step e d) (step-Agrees e s d h)

abbrev pub no_tables : Store
no_tables = record { tables = record { online = []; rich = [] }; due = [] }

abbrev pub nobody : Described
nobody = record { players = []; presence = λ id. none; due = λ id. 0 }

-- From empty tables on, after any interleaving of sign-ons, of the two steps in which a connection is
-- removed and its account's presence is forgotten, and of publications by any caller: the stored
-- presence under each id is the one last published under it, unless a forgetting that was due for it
-- has been carried out since; one is due for each time that the account's last connection was removed.
pub run-described_run :
    (es : List Event) (id : ℕ)
    → lookup id (run es no_tables).tables.rich ≡ (described_run es nobody).presence id
unfolding lookup
run-described_run es id =
    (run-Agrees es no_tables nobody (record {
      same_players = refl;
      same_presence = λ j. refl;
      same_due = λ j. refl;
    })).same_presence
      id
