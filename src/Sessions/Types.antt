-- ===== src/Sessions/Types.antt =====
-- Games as they are listed (matchmaking.go). A Go string or byte array is its bytes; times are in
-- seconds.
use nextendo_demonware.Common.{ℕ, Bool, true, false, not, ◌&&◌, ◌||◌, List, [], ◌∷◌, ◌==◌}
use nextendo_demonware.Wire.Reader.{◌>>=◌, ◌>>◌, Reader, Read, ok}
use nextendo_demonware.Wire.Reader

-- mmSession.
pub record Session : Type 0 where
  pub context : List ℕ
  pub id : List ℕ
  pub owner : ℕ
  pub owner_pid : ℕ
  pub orphaned : ℕ
  pub host_addr : List ℕ
  pub game_type : ℕ
  pub max_players : ℕ
  pub num_players : ℕ
  pub attrs : List ℕ
  pub updated : ℕ
  pub reserved : Bool

-- What a host uploads.
pub record Info : Type 0 where
  pub host : List ℕ
  pub game_type : ℕ
  pub max_players : ℕ
  pub attrs : List ℕ

-- lobbyConn.owns, of a connection and its account, 0 where it has none.
unfoldable pub owns : ℕ → ℕ → Session → Bool
owns conn pid s = s.owner == conn || not (pid == 0) && s.owner_pid == pid

abbrev give_rest : Read (List ℕ)
give_rest r = (ok (Reader.rest r), r)

-- The attributes, if there is anything left.
abbrev optional_blob : Read (List ℕ)
optional_blob r = elim (Reader.remaining r) [ [] ↦ (ok [], r) | _ ∷ _ ↦ Reader.blob r ]

abbrev starts_ctr : List ℕ → Bool
starts_ctr (a ∷ b ∷ c ∷ d ∷ _) = a == 99 && b == 116 && c == 114 && d == 58
starts_ctr _ = false

abbrev attrs_of : Bool → Read (List ℕ)
attrs_of true = optional_blob
attrs_of false = give_rest

-- readInfo and readContextInfo: the titles "ctr:…" wrap their attributes in a blob.
unfoldable pub read_context_info : List ℕ → Read Info
unfolding Reader.blob Reader.u32 Reader.rest
read_context_info context = do
  host ← Reader.blob
  game_type ← Reader.u32
  max_players ← Reader.u32
  attrs ← attrs_of (starts_ctr context)
  (λ r. (
    ok (record { host = host; game_type = game_type; max_players = max_players; attrs = attrs }),
    r,
  ))
