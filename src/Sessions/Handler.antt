-- ===== src/Sessions/Handler.antt =====
-- onMatchMakingContext (matchmaking.go). The games that are found are returned as a list: their
-- addresses pass through the relay on the way out.
use nextendo_demonware.Common.{
  ℕ, Bool, true, false, List, ◌==◌, if◌then◌else◌, Option, none, some, length,
}
use nextendo_demonware.Common.Select.{any}
use nextendo_demonware.Wire.Reader.{Reader, Result, ok, err}
use nextendo_demonware.Wire.Reader
use nextendo_demonware.Sessions.Types.{Session, Info, read_context_info}
use nextendo_demonware.Sessions.Store.{
  is_mine, reserve, create, change, updated_session, counted_session, delete, find_sessions,
}

pub data Reply : Type 0 where
  failed done : Reply
  session_id : List ℕ → Reply
  found : List Session → Reply

abbrev pub to_option {ℓ} : {A : Type ℓ} → Result A → Option A
to_option (ok a) = some a
to_option (err e) = none

-- Go's `v, _ := …`, of a number.
abbrev pub or_zero : Result ℕ → ℕ
or_zero (ok n) = n
or_zero (err e) = 0

-- A blob of 8 bytes.
abbrev pub an_id : Result (List ℕ) → Option (List ℕ)
an_id (err e) = none
an_id (ok b) = if length b == 8 then some b else none

pub data Task : Type 0 where
  request_session_id create_session update_session initialize_session : Task
  update_players delete_session find : Task

module _ (conn pid : ℕ) (context new_id : List ℕ) (now : ℕ) (r : Reader) (ss : List Session) where
  abbrev pub on_create : Option Info → List Session × Reply
  on_create none = (ss, failed)
  on_create (some i) = (create conn pid context new_id now i ss, session_id new_id)

  abbrev pub on_info : Bool → List ℕ → Option Info → List Session × Reply
  on_info initial id none = (ss, done)
  on_info initial id (some i) =
      if any (is_mine conn pid context id) ss
      then (change (is_mine conn pid context id) (updated_session conn pid now initial i) ss, done)
      else (ss, failed)

  abbrev pub on_update : Bool → Option (List ℕ) → Reader → List Session × Reply
  on_update initial none r' = (ss, done)
  on_update initial (some id) r' = on_info initial id (to_option (read_context_info context r').0)

  abbrev pub on_players : Option (List ℕ) → Result ℕ × Reader → List Session × Reply
  on_players none _ = (ss, done)
  on_players (some id) (players, r') =
      let i = to_option (read_context_info context r').0 in
      (
        change (is_mine conn pid context id) (counted_session conn pid now (or_zero players) i) ss,
        done,
      )

  abbrev pub on_delete : Option (List ℕ) → List Session × Reply
  on_delete none = (ss, done)
  on_delete (some id) = (delete conn pid context id ss, done)

  abbrev pub on_find :
      Result ℕ × Reader → Result ℕ × Reader → Result ℕ × Reader → List Session × Reply
  on_find query start most =
      (ss, found (find_sessions conn pid context (or_zero start.0) (or_zero most.0) ss))

  -- The games after the task, and its answer. `new_id` is the id that rand.Read fills in.
  unfoldable pub on_match_making : Task → List Session × Reply
  unfolding create reserve updated_session counted_session delete find_sessions is_mine
      read_context_info Reader.u32 Reader.blob
  on_match_making request_session_id = (reserve conn pid context new_id now ss, session_id new_id)
  on_match_making create_session = on_create (to_option (read_context_info context r).0)
  on_match_making update_session = (let (id, r') = Reader.blob r in on_update false (an_id id) r')
  on_match_making initialize_session =
      (let (id, r') = Reader.blob r in on_update true (an_id id) r')
  on_match_making update_players =
      (let (id, r') = Reader.blob r in on_players (an_id id) (Reader.u32 r'))
  on_match_making delete_session = on_delete (an_id (Reader.blob r).0)
  on_match_making find =
      (let query = Reader.u32 r in
        let start = Reader.u32 query.1 in on_find query start (Reader.u32 start.1))
