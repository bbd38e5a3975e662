-- ===== src/Presence/Table.antt =====
-- The tables of players and of rich presence (friends.go, presence.go, ctr_presence.go). A map is an
-- association list with each key once. The entries of `pending` are fields of the connections.
use nextendo_demonware.Common.{
  [], ℕ, Bool, not, ◌&&◌, List, ◌∷◌, Option, none, some, ◌==◌, if◌then◌else◌,
}
use nextendo_demonware.Common.Select.{any, contains, remove_first}

-- playerID, by what is read of it.
pub record Player : Type 0 where
  pub username : List ℕ
  pub pid : ℕ
  pub title : ℕ

-- richPresence; `blob` is its `data`.
pub record Rich : Type 0 where
  pub platform : List ℕ
  pub flag : ℕ
  pub blob : List ℕ

module _ {ℓ} {V : Type ℓ} where
  -- `m[k]`.
  unfoldable pub lookup : ℕ → List (ℕ × V) → Option V
  lookup k [] = none
  lookup k ((j, v) ∷ m) = if j == k then some v else lookup k m

  -- `delete(m, k)`.
  unfoldable pub erase : ℕ → List (ℕ × V) → List (ℕ × V)
  erase k [] = []
  erase k ((j, v) ∷ m) = if j == k then erase k m else (j, v) ∷ erase k m

  -- `m[k] = v`.
  unfoldable pub insert : ℕ → V → List (ℕ × V) → List (ℕ × V)
  insert k v m = (k, v) ∷ erase k m

-- The players by connection, and the presence by account.
pub record Tables : Type 0 where
  pub online : List (ℕ × Player)
  pub rich : List (ℕ × Rich)

-- Whether another connection has the account.
unfoldable pub elsewhere : ℕ → ℕ → List (ℕ × Player) → Bool
elsewhere conn pid online = any (λ (e : ℕ × Player). not (e.0 == conn) && e.1.pid == pid) online

-- The account whose presence is to be forgotten when its connection is dropped, or 0.
abbrev pub leaving_of : ℕ → List (ℕ × Player) → Option Player → ℕ
leaving_of conn online none = 0
leaving_of conn online (some p) = if elsewhere conn p.pid online then 0 else p.pid

unfoldable pub leaving : ℕ → List (ℕ × Player) → ℕ
leaving conn online = leaving_of conn online (lookup conn online)

unfoldable pub drop_presence : ℕ → Tables → Tables
drop_presence pid t = record t { rich = erase pid t.rich }

-- dropOnline takes onlineMu and richMu one after the other, and other handlers run in between: the
-- tables, and the accounts whose presence the calls that are between the two locks are to forget.
pub record Store : Type 0 where
  pub tables : Tables
  pub due : List ℕ

-- dropOnline as far as it holds onlineMu, and its test for the rest.
unfoldable pub disconnect : ℕ → Store → Store
disconnect conn s =
    let pid = leaving conn s.tables.online in
    record {
      tables = record s.tables { online = erase conn s.tables.online };
      due = if not (pid == 0) then pid ∷ s.due else s.due;
    }

-- The rest of a call of dropOnline that is to forget this account, where there is one.
unfoldable pub forget : ℕ → Store → Store
forget pid s =
    if contains pid s.due
    then record { tables = drop_presence pid s.tables; due = remove_first (λ i. i == pid) s.due }
    else s

-- tryIdentity, where the file of the identity is there.
unfoldable pub identify : ℕ → Player → Tables → Tables
identify conn player t = record t { online = insert conn player t.online }

-- rpSet of onRichPresence, for an account that is not 0.
unfoldable pub publish : ℕ → Rich → Tables → Tables
publish id r t = record t { rich = insert id r t.rich }

-- onlinePIDsByApp and onlinePIDs: each account once, whatever the order of the map. `seen` are the
-- accounts that came before.
unfoldable pub pids_loop : List ℕ → List (ℕ × Player) → List ℕ
pids_loop seen [] = []
pids_loop seen ((_, p) ∷ rest) =
    let with_it = p.pid ∷ pids_loop (p.pid ∷ seen) rest in
    let without = pids_loop seen rest in
    if not (p.pid == 0) && not (contains p.pid seen) then with_it else without

unfoldable pub online_pids : List (ℕ × Player) → List ℕ
online_pids online = pids_loop [] online

-- The app that a title stands for: Crash Team Racing's, or Diablo III's.
pub data App : Type 0 where
  d3 ctr : App

unfoldable app_for_title : ℕ → App
app_for_title title = if title == 5775 then ctr else d3
