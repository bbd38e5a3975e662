-- ===== src/Handshake/Found.antt =====
-- What findTicket finds (handshake.go).
use nextendo_demonware.Common.{
  ℕ, zero, suc, ◌+◌, ◌*◌, ◌≡◌, refl, sym, ap, ◌∙◌, ◌⊎◌, inl, inr, Bool, true, false, List, Option,
  none, some, length, take,
}
use nextendo_demonware.Common.Select.{bytes_eq, bytes_eq→eq}
use nextendo_demonware.Handshake.Ticket.{
  bytes_from, magic, scan_offsets, offsets, first_of, find_ticket,
}

length-bytes_from :
    (raw : List ℕ) (msb : Bool) (off k n : ℕ) → length (bytes_from raw msb off k n) ≡ n
unfolding bytes_from
length-bytes_from raw msb off k zero = refl
length-bytes_from raw msb off k (suc n) = ap suc (length-bytes_from raw msb off (k + 1) n)

take-bytes_from :
    (raw : List ℕ) (msb : Bool) (off : ℕ)
    → take 4 (bytes_from raw msb off 0 128) ≡ bytes_from raw msb off 0 4
unfolding bytes_from
take-bytes_from raw msb off = refl

scan_offsets-magic :
    (raw : List ℕ) (msb : Bool) (off left : ℕ) (t : List ℕ)
    → scan_offsets raw msb off left ≡ some t
    → (length t ≡ 128) × (take 4 t ≡ magic)
unfolding scan_offsets
scan_offsets-magic raw msb off zero t e = absurd (cc)
scan_offsets-magic raw msb off (suc left) t e =
    go (bytes_eq (bytes_from raw msb off 0 4) magic) refl e
      (scan_offsets-magic raw msb (off + 1) left t)
  where
    go :
        (b : Bool)
        → bytes_eq (bytes_from raw msb off 0 4) magic ≡ b
        → ◌≡◌ {A = Option (List ℕ)}
            (elim b [
              | true ↦ some (bytes_from raw msb off 0 128)
              | false ↦ scan_offsets raw msb (off + 1) left
            ])
            (some t)
        → (scan_offsets raw msb (off + 1) left ≡ some t → (length t ≡ 128) × (take 4 t ≡ magic))
        → (length t ≡ 128) × (take 4 t ≡ magic)
    go true f e ih =
        let same : bytes_from raw msb off 0 128 ≡ t = cc in
        (
          ap length (sym same) ∙ length-bytes_from raw msb off 0 128,
          ap (take 4) (sym same)
              ∙ take-bytes_from raw msb off
              ∙ bytes_eq→eq (bytes_from raw msb off 0 4) magic f,
        )
    go false f e ih = ih e

first_of-some :
    (a b : Option (List ℕ)) (t : List ℕ) → first_of a b ≡ some t → (a ≡ some t) ⊎ (b ≡ some t)
first_of-some none b t e = inr e
first_of-some (some a) b t e = inl e

-- A ticket that is found, at whatever bit offset and in whatever bit order, has 128 bytes and begins
-- with the magic ones.
pub find_ticket-magic :
    (raw t : List ℕ) → find_ticket raw ≡ some t → (length t ≡ 128) × (take 4 t ≡ magic)
unfolding find_ticket
find_ticket-magic raw t e =
    let n : ℕ = offsets (length raw * 8) in
    elim (first_of-some (scan_offsets raw false 0 n) (scan_offsets raw true 0 n) t e) [
      | inl f ↦ scan_offsets-magic raw false 0 n t f
      | inr f ↦ scan_offsets-magic raw true 0 n t f
    ]
