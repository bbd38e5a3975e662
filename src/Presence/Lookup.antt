-- ===== src/Presence/Lookup.antt =====
-- The players that an id of a friend stands for (friends.go). The aliases that were learnt, the answer
-- of the account server and the comparison of names that ignores case are parameters.
use nextendo_demonware.Common.{
  [], ℕ, zero, suc, ◌+◌, Bool, true, false, not, ◌&&◌, ◌||◌, List, ◌∷◌, ◌++◌, Option, none, some,
  length, take, ltb, leb, ◌==◌, if◌then◌else◌,
}
use nextendo_demonware.Common.Bytes.{get_le}
use nextendo_demonware.Wire.Reader.{Reader, Result, ok, err, remaining, advance}
use nextendo_demonware.Wire.Reader
use nextendo_demonware.Wire.Tags.{tag_u64}
use nextendo_demonware.Presence.Table.{Player}

pub record Names : Type 0 where
  pub alias : ℕ → List ℕ
  pub console_owner : ℕ → Option ℕ
  pub same_name : List ℕ → List ℕ → Bool
  pub lower : List ℕ → List ℕ

abbrev stands_for : Names → ℕ → List ℕ → Player → Bool
stands_for names id alias p =
    not (p.pid == 0) && p.pid == id || not (length alias == 0) && names.same_name p.username alias

-- The first player that fits; a Go map has no order, so that it may be any.
unfoldable pub online_user : Names → ℕ → List ℕ → List (ℕ × Player) → Option Player
online_user names id alias [] = none
online_user names id alias ((_, p) ∷ rest) =
    if stands_for names id alias p then some p else online_user names id alias rest

abbrev by_owner : Names → List (ℕ × Player) → Option ℕ → Option Player
by_owner names online none = none
by_owner names online (some pid) = online_user names pid [] online

unfoldable pub online_player_for : Names → List (ℕ × Player) → ℕ → Option Player
online_player_for names online id = elim (online_user names id (names.alias id) online) [
  | some p ↦ some p
  | none ↦ by_owner names online (names.console_owner id)
]

unfoldable pub nickname_online : Names → List (ℕ × Player) → ℕ → List ℕ
nickname_online names online id = elim (online_player_for names online id) [
  | none ↦ []
  | some p ↦ p.username
]

unfoldable pid_online : Names → List (ℕ × Player) → ℕ → ℕ
pid_online names online id = elim (online_player_for names online id) [ none ↦ 0 | some p ↦ p.pid ]

-- The raw numbers of an array, as far as the bytes go.
unfoldable pub array_loop : ℕ → Reader → List ℕ → List ℕ × Reader
array_loop zero r out = (out, r)
array_loop (suc n) r out = elim (leb (r.off + 8) (length r.b)) [
  | true ↦ array_loop n (advance 8 r) (out ++ get_le (take 8 (remaining r)) ∷ [])
  | false ↦ (out, r)
]

abbrev tag_u64_array : ℕ
tag_u64_array = 100 + tag_u64

-- The size of the array, and its numbers; nothing where it is cut off.
abbrev read_array : Result ℕ × Reader → List ℕ → Option (List ℕ × Reader)
read_array (err _, r) out = none
read_array (ok _, r) out =
    if ltb (length r.b) (r.off + 4)
    then none
    else some (array_loop (get_le (take 4 (remaining r))) (advance 4 r) out)

-- u64s: each round takes a byte at least, so that the fuel of the bytes left is enough.
unfoldable pub u64s_loop : ℕ → Reader → List ℕ → List ℕ
u64s_loop zero r out = out
u64s_loop (suc fuel) r out = elim (remaining r) [
  | [] ↦ out
  | c ∷ cs ↦ (elim (c == tag_u64) [
    | true ↦ (elim (ltb (length r.b) (r.off + 9)) [
      | true ↦ out
      | false ↦ u64s_loop fuel (advance 9 r) (out ++ get_le (take 8 cs) ∷ [])
    ])
    | false ↦ (elim (c == tag_u64_array) [
      | false ↦ out
      | true ↦ (elim (read_array (Reader.u32 (advance 1 r)) out) [
        | none ↦ out
        | some (out', r') ↦ u64s_loop fuel r' out'
      ])
    ])
  ])
]

unfoldable pub u64s : Reader → List ℕ
u64s r = u64s_loop (length r.b + 1) r []
