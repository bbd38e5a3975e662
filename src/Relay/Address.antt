-- ===== src/Relay/Address.antt =====
-- The slots of a bdCommonAddr (ctr_relay.go).
use nextendo_demonware.Common.{
  ℕ, zero, suc, ◌+◌, ◌*◌, ◌&&◌, ◌||◌, List, [], ◌∷◌, ◌++◌, Option, none, some, ltb, ◌==◌,
  if◌then◌else◌, length, take, drop,
}
use nextendo_demonware.Common.Bytes.{put_le, get_le}

-- net.UDPAddr, with the four bytes of its address.
pub record Endpoint : Type 0 where
  pub ip : List ℕ
  pub port : ℕ

-- parseAddrSlot: the sentinel 0.255.0.255 and the port 0 mark a slot that is free.
unfoldable pub parse_slot : List ℕ → Option Endpoint
unfolding get_le
parse_slot (a ∷ b ∷ c ∷ d ∷ p ∷ q ∷ _) =
    if a == 0 && b == 255 && c == 0 && d == 255 || get_le (p ∷ q ∷ []) == 0
    then none
    else some (record { ip = a ∷ b ∷ c ∷ d ∷ []; port = get_le (p ∷ q ∷ []) })
parse_slot _ = none

abbrev pub common_addr_len : ℕ
common_addr_len = 67

-- hostPublicAddr.
unfoldable pub host_public_addr : List ℕ → Option Endpoint
unfolding parse_slot
host_public_addr host_addr =
    if ltb (length host_addr) common_addr_len then none else parse_slot (take 6 (drop 60 host_addr))

-- writeAddrSlot into the slot at that offset.
unfoldable write_slot : ℕ → Endpoint → List ℕ → List ℕ
unfolding put_le
write_slot off e out = take off out ++ (e.ip ++ put_le 2 e.port) ++ drop (off + 6) out

-- The loop over the slots, of which so many are left: the endpoint goes into the first that is free.
unfoldable pub fill_slot : ℕ → ℕ → Endpoint → List ℕ → List ℕ
unfolding parse_slot write_slot
fill_slot zero slot e addr = addr
fill_slot (suc left) slot e addr = elim (parse_slot (take 6 (drop (slot * 6) addr))) [
  | none ↦ write_slot (slot * 6) e addr
  | some _ ↦ fill_slot left (slot + 1) e addr
]
