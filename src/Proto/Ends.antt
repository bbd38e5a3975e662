-- ===== src/Proto/Ends.antt =====
-- economyProto ends on every input: each round leaves the offset further on.
use nextendo_demonware.Common.{
  [], ℕ, zero, suc, ◌+◌, ◌*◌, ◌/◌, ◌%◌, ◌^◌, ◌<◌, ◌≡◌, List, ◌∷◌, ◌++◌, some, length, drop, ltb,
  arith, Bool-cases, Option-cases, inl, inr, ltb→lt,
}
use nextendo_demonware.Wire.Varint.{uvarint_loop, uvarint, read_varint}
use nextendo_demonware.Proto.Outcome.{Ends}
use nextendo_demonware.Proto.Read.{
  Field, varint_payload, bytes_payload, proto_field, proto_loop, economy_proto,
}

uvarint_loop-advances : (bs : List ℕ) (i x s v n : ℕ) → uvarint_loop bs i x s ≡ some (v, n) → i < n
unfolding uvarint_loop
uvarint_loop-advances [] i x s v n e = absurd (cc)
uvarint_loop-advances (b ∷ bs) i x s v n e =
    ground (arith, uvarint_loop-advances bs (i + 1) (x + b % 128 * 2 ^ s) (s + 7) v n)

read_varint-advances : (b : List ℕ) (i v next : ℕ) → read_varint b i ≡ some (v, next) → i < next
unfolding read_varint uvarint
read_varint-advances b i v next e = elim (Option-cases (uvarint_loop (drop i b) 0 0 0)) [
  | inl f ↦ ground (arith, f)
  | inr ((w, n), f) ↦ ground (arith, f, uvarint_loop-advances (drop i b) 0 0 0 w n f)
]

varint_payload-advances :
    (b : List ℕ) (i number next : ℕ) (f : Field)
    → varint_payload b i number ≡ some (f, next)
    → i < next
unfolding varint_payload
varint_payload-advances b i number next f e = elim (Option-cases (read_varint b i)) [
  | inl g ↦ ground (arith, g)
  | inr ((v, n), g) ↦ ground (arith, g, read_varint-advances b i v n g)
]

bytes_payload-advances :
    (b : List ℕ) (i number next : ℕ) (f : Field)
    → bytes_payload b i number ≡ some (f, next)
    → i < next
unfolding bytes_payload
bytes_payload-advances b i number next f e = elim (Option-cases (read_varint b i)) [
  | inl g ↦ ground (arith, g)
  | inr ((v, n), g) ↦ ground (arith, g, read_varint-advances b i v n g)
]

proto_field-advances :
    (b : List ℕ) (i next : ℕ) (f : Field) → proto_field b i ≡ some (f, next) → i < next
unfolding proto_field
proto_field-advances b i next f e = elim (Option-cases (read_varint b i)) [
  | inl g ↦ ground (arith, g)
  | inr ((tag, n), g) ↦ ground (
    arith,
    g,
    read_varint-advances b i tag n g,
    varint_payload-advances b n (tag / 8) next f,
    bytes_payload-advances b n (tag / 8) next f,
  )
]

proto_loop-Ends :
    (fuel : ℕ) (b : List ℕ) (i : ℕ) (out : List Field)
    → length b < i + fuel
    → 0 < fuel
    → Ends (proto_loop fuel b i out)
unfolding proto_loop
proto_loop-Ends zero b i out h some_fuel = elim some_fuel [ ]
proto_loop-Ends (suc fuel) b i out h some_fuel = elim (Bool-cases (ltb i (length b))) [
  | inl e ↦ (elim (Option-cases (proto_field b i)) [
    | inl g ↦ rw (e, proto_loop, g) Ends.by_error
    | inr ((f, next), g) ↦
        let further : i < next = proto_field-advances b i next f g in
        elim (Bool-cases (ltb 4096 (length (out ++ f ∷ [])))) [
          | inl m ↦ rw (e, proto_loop, g, m) Ends.by_error
          | inr m ↦
              rw (e, proto_loop, g, m)
                (proto_loop-Ends fuel b next (out ++ f ∷ []) (omega arith)
                  (omega (arith, ltb→lt i (length b) e)))
        ]
  ])
  | inr e ↦ rw (e, proto_loop) (Ends.by_value out)
]

-- Whatever bytes it is given, economyProto ends, with fields or with an error.
pub economy_proto-Ends : (b : List ℕ) → Ends (economy_proto b)
unfolding economy_proto
economy_proto-Ends b = elim (Bool-cases (ltb (2 ^ 20) (length b))) [
  | inl e ↦ rw (e, economy_proto) Ends.by_error
  | inr e ↦
      rw (e, economy_proto) (proto_loop-Ends (suc (length b)) b 0 [] (omega arith) (omega arith))
]
