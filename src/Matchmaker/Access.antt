-- ===== src/Matchmaker/Access.antt =====
-- Who may read and replace a room's documents: syncDoc and the getter of ctr_async.go.
use nextendo_demonware.Common.{
  [], ℕ, ◌≡◌, refl, true, false, some, ◌==◌, arith, Option-cases, ◌⊎◌, inl, inr, Bool-cases,
}
use nextendo_demonware.Common.Select.{any, all}
use nextendo_demonware.Matchmaker.Types.{Search, HostDoc, Room, Matchmaker, BackendDoc}
use nextendo_demonware.Matchmaker.Rooms.{room_at, documents}
use nextendo_demonware.Matchmaker.Leave.{documents_for}
use nextendo_demonware.Matchmaker.Sync.{required_keys, may_sync, sync_doc}

-- The call was made by the room's host, for the version that the room has.
pub record Entitled (conn id version : ℕ) (d : HostDoc) (m : Matchmaker) (r : Room) : Type 0 where
  pub there : room_at m id ≡ some r
  pub by_host : r.host.conn ≡ conn
  pub current : r.version ≡ version
  pub complete : all d.has required_keys ≡ true

-- A host document is taken only from the host of the room, for the room's current version and with
-- all the required keys; in every other case nothing changes and nobody is told.
pub sync_doc_lem :
    (now conn id version : ℕ) (d : HostDoc) (m : Matchmaker)
    → let (n, taken, notices) = sync_doc now conn id version (some d) m in
      ((taken ≡ true) × ((r : Room) × Entitled conn id version d m r))
      ⊎ ((taken ≡ false) × (n ≡ m) × (notices ≡ []))
unfolding sync_doc may_sync
sync_doc_lem now conn id version d m = elim (Option-cases (room_at m id)) [
  | inl e ↦ rw (e, sync_doc) (inr (refl, refl, refl))
  | inr (r, e) ↦ elim (Bool-cases (may_sync conn version d r)) [
    | inl y ↦
        rw (e, sync_doc, y)
          (inl (
            refl,
            (
              r,
              record {
                there = e;
                by_host = ground arith;
                current = ground arith;
                complete = ground arith;
              },
            ),
          ))
    | inr n ↦ rw (e, sync_doc, n) (inr (refl, refl, refl))
  ]
]

-- The documents of a room are given just to those who play in it, and they are the room's.
documents_for_lem :
    (conn id : ℕ) (m : Matchmaker) (docs : HostDoc × BackendDoc)
    → documents_for conn id m ≡ some docs
    → (r : Room) × (room_at m id ≡ some r)
      × (any (λ (p : Search). p.conn == conn) r.players ≡ true)
      × (docs ≡ documents m r)
unfolding documents_for
documents_for_lem conn id m docs e = elim (Option-cases (room_at m id)) [
  | inl n ↦ ground arith
  | inr (r, y) ↦ (r, y, ground arith, ground arith)
]
