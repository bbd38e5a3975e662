-- ===== src/Handshake/Ticket.antt =====
-- findTicket (handshake.go): a ticket of 128 bytes at any bit offset. `byte_at` is `get`.
use nextendo_demonware.Common.{
  [], ℕ, zero, suc, ◌+◌, ◌-◌, ◌*◌, ◌/◌, ◌%◌, ◌^◌, Bool, true, false, List, ◌∷◌, Option, none, some,
  length, get_or, leb, if◌then◌else◌,
}
use nextendo_demonware.Common.Select.{bytes_eq}

-- Bit i, from the lowest bit of a byte on, or from the highest.
unfoldable pub bit : List ℕ → Bool → ℕ → ℕ
bit raw msb i =
    let b = get_or raw (i / 8) 0 in if msb then b / 2 ^ (7 - i % 8) % 2 else b / 2 ^ (i % 8) % 2

-- The bits that `|=` adds are each clear before.
unfoldable pub byte_loop : List ℕ → Bool → ℕ → ℕ → ℕ
byte_loop raw msb at zero = 0
byte_loop raw msb at (suc j) =
    byte_loop raw msb at j + bit raw msb (at + j) * 2 ^ (if msb then 7 - j else j)

unfoldable pub byte_at : List ℕ → Bool → ℕ → ℕ → ℕ
byte_at raw msb off k = byte_loop raw msb (off + k * 8) 8

-- So many bytes from byte k on.
unfoldable pub bytes_from : List ℕ → Bool → ℕ → ℕ → ℕ → List ℕ
bytes_from raw msb off k zero = []
bytes_from raw msb off k (suc n) = byte_at raw msb off k ∷ bytes_from raw msb off (k + 1) n

abbrev pub magic : List ℕ
magic = 0xDE ∷ 0xAD ∷ 0xBD ∷ 0xEF ∷ []

-- The offsets from `off` on, so many of them.
unfoldable pub scan_offsets : List ℕ → Bool → ℕ → ℕ → Option (List ℕ)
scan_offsets raw msb off zero = none
scan_offsets raw msb off (suc left) = elim (bytes_eq (bytes_from raw msb off 0 4) magic) [
  | true ↦ some (bytes_from raw msb off 0 128)
  | false ↦ scan_offsets raw msb (off + 1) left
]

-- One offset for each `off+128*8 <= total`.
abbrev pub offsets : ℕ → ℕ
offsets total = if leb 1024 total then total - 1024 + 1 else 0

abbrev pub first_of : Option (List ℕ) → Option (List ℕ) → Option (List ℕ)
first_of (some t) other = some t
first_of none other = other

unfoldable pub find_ticket : List ℕ → Option (List ℕ)
find_ticket raw =
    let total = length raw * 8 in
    first_of (scan_offsets raw false 0 (offsets total)) (scan_offsets raw true 0 (offsets total))
