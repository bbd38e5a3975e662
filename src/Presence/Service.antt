-- ===== src/Presence/Service.antt =====
-- onGetUserNames, onUserData and onRichPresence (friends.go, ctr_presence.go). `me` is the caller's
-- account, or 0. The identities that were pending are in the tables.
use nextendo_demonware.Common.{
  [], ℕ, zero, suc, ◌%◌, ◌^◌, ◌||◌, List, ◌∷◌, ◌++◌, Option, none, some, length, ltb, ◌==◌,
  if◌then◌else◌,
}
use nextendo_demonware.Common.Select.{bytes_eq, contains}
use nextendo_demonware.Wire.Writer
use nextendo_demonware.Wire.Tags.{tag_bool}
use nextendo_demonware.Wire.Reader.{Reader, Read, Result, ok, err, ◌>>=◌, ◌>>◌, remaining, advance}
use nextendo_demonware.Wire.Reader
use nextendo_demonware.Wire.Reply.{task_reply}
use nextendo_demonware.Stats.Parse.{give}
use nextendo_demonware.Presence.Table.{Player, Rich, Tables, lookup, online_pids, publish}
use nextendo_demonware.Presence.Lookup.{Names, nickname_online, u64s}

-- The friends that are online, with their names.
unfoldable name_hits : Names → List (ℕ × Player) → List ℕ → List (ℕ × List ℕ)
name_hits names online [] = []
name_hits names online (id ∷ ids) =
    let rest = name_hits names online ids in
    let name = nickname_online names online id in
    if length name == 0 then rest else (id, name) ∷ rest

unfoldable write_names : List ℕ → List (ℕ × List ℕ) → List ℕ
write_names w [] = w
write_names w ((id, name) ∷ hits) = write_names (Writer.strv (Writer.u64 w id) name) hits

unfoldable on_get_user_names : Names → List (ℕ × Player) → ℕ → ℕ → Reader → List ℕ
on_get_user_names names online transaction task r =
    let hits = name_hits names online (u64s r) in
    task_reply transaction task 0 (length hits % 2 ^ 32, write_names [] hits)

-- `userData`, by the lower-case name, a bar, and the context.
abbrev UserData : Type 0
UserData = List (List ℕ × List ℕ)

abbrev data_key : Names → List ℕ → List ℕ → List ℕ
data_key names username ctx = names.lower username ++ (124 ∷ ctx)

unfoldable data_at : List ℕ → UserData → Option (List ℕ)
data_at key [] = none
data_at key ((k, v) ∷ rest) = if bytes_eq k key then some v else data_at key rest

unfoldable pub set_data : List ℕ → List ℕ → UserData → UserData
set_data key value [] = (key, value) ∷ []
set_data key value ((k, v) ∷ rest) =
    let more = set_data key value rest in
    if bytes_eq k key then (k, value) ∷ rest else (k, v) ∷ more

abbrev with_data : ℕ → Option (List ℕ) → List (ℕ × List ℕ) → List (ℕ × List ℕ)
with_data id none rest = rest
with_data id (some d) rest = (id, d) ∷ rest

unfoldable data_hits : Names → List (ℕ × Player) → UserData → List ℕ → List ℕ → List (ℕ × List ℕ)
data_hits names online store ctx [] = []
data_hits names online store ctx (id ∷ ids) =
    let rest = data_hits names online store ctx ids in
    let name = nickname_online names online id in
    if length name == 0 then rest else with_data id (data_at (data_key names name ctx) store) rest

unfoldable write_data : List ℕ → List (ℕ × List ℕ) → List ℕ
write_data w [] = w
write_data w ((id, d) ∷ hits) = write_data (Writer.blobv (Writer.u64 w id) d) hits

-- The text of a string that may be missing: `ctx, _ := r.str()`.
abbrev text_or_empty : Result (List ℕ) → List ℕ
text_or_empty (ok s) = s
text_or_empty (err _) = []

-- Past a Boolean, if one comes next.
unfoldable skip_bool : Reader → Reader
skip_bool r = elim (remaining r) [ [] ↦ r | c ∷ _ ↦ if c == tag_bool then advance 2 r else r ]

-- The data of the caller, if its blob is read and the caller is known.
abbrev pub stored : Names → Option Player → List ℕ → Result (List ℕ) → UserData → UserData
stored names (some p) ctx (ok d) store = set_data (data_key names p.username ctx) d store
stored names _ ctx _ store = store

unfoldable on_user_data :
    Names
    → List (ℕ × Player)
    → Option Player
    → ℕ
    → ℕ
    → Reader
    → UserData
    → UserData × Option (List ℕ)
on_user_data names online player transaction task r store =
    let (ctx_read, r') = Reader.str r in
    let ctx = text_or_empty ctx_read in
    let hits = data_hits names online store ctx (u64s (skip_bool r')) in
    if task == 1
    then (
      stored names player ctx (Reader.blob r').0 store,
      some (task_reply transaction task 0 (0, [])),
    )
    else if task == 4
    then (store, some (task_reply transaction task 0 (length hits % 2 ^ 32, write_data [] hits)))
    else (store, none)

-- accountID.
pub record AccountId : Type 0 where
  pub id : ℕ
  pub platform : List ℕ

abbrev account_id : Read AccountId
account_id = do
  id ← Reader.u64
  platform ← Reader.str
  give (record { id = id; platform = platform })

-- The ids up to the first that is not read.
unfoldable accounts_loop : ℕ → Reader → List AccountId
accounts_loop zero r = []
accounts_loop (suc n) r =
    let (a, r') = account_id r in elim a [ err _ ↦ [] | ok x ↦ x ∷ accounts_loop n r' ]

unfoldable account_ids : Reader → List AccountId
account_ids r =
    let (count, r') = Reader.u32 r in
    elim count [ err _ ↦ [] | ok n ↦ if ltb 4096 n then [] else accounts_loop n r' ]

-- The request of rpSet: whose presence, and which.
abbrev presence_request : Read (ℕ × Rich)
presence_request = do
  id ← Reader.u64
  platform ← Reader.str
  flag ← Reader.u8
  blob ← Reader.blob
  give (id, record { platform = platform; flag = flag; blob = blob })

abbrev pub or_me : ℕ → ℕ → ℕ
or_me me id = if id == 0 then me else id

abbrev on_set : ℕ → Result (ℕ × Rich) → Tables → Tables
on_set me (err _) t = t
on_set me (ok (id, r)) t = if or_me me id == 0 then t else publish (or_me me id) r t

-- What is shown of an account: its stored presence only to itself, or while it is online.
abbrev pub empty_presence : List ℕ → Rich
empty_presence platform = record { platform = platform; flag = 0; blob = [] }

abbrev pub or_empty : List ℕ → Option Rich → Rich
or_empty platform none = empty_presence platform
or_empty platform (some r) = r

unfoldable pub shown : ℕ → Tables → AccountId → ℕ × Rich
shown me t a =
    let id = or_me me a.id in
    (
      id,
      if id == me || contains id (online_pids t.online)
          then or_empty a.platform (lookup id t.rich)
          else empty_presence a.platform,
    )

unfoldable pub rich_hits : ℕ → Tables → List AccountId → List (ℕ × Rich)
rich_hits me t [] = []
rich_hits me t (a ∷ as') = shown me t a ∷ rich_hits me t as'

unfoldable write_rich : List ℕ → List (ℕ × Rich) → List ℕ
write_rich w [] = w
write_rich w ((id, p) ∷ hits) =
    write_rich (Writer.blobv (Writer.u8 (Writer.strv (Writer.u64 w id) p.platform) p.flag) p.blob)
      hits

unfoldable on_rich_presence : ℕ → ℕ → ℕ → Reader → Tables → Tables × List ℕ
on_rich_presence me transaction task r t =
    let r' = (Reader.str r).1 in
    let hits = rich_hits me t (account_ids r') in
    if task == 3
    then (on_set me (presence_request r').0 t, task_reply transaction task 0 (0, []))
    else if task == 4 || task == 5
    then (t, task_reply transaction task 0 (length hits % 2 ^ 32, write_rich [] hits))
    else (t, task_reply transaction task 0 (0, []))
