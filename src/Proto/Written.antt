-- ===== src/Proto/Written.antt =====
-- economyProto reads back the fields that pbVarintField and pbBytesField write.
use nextendo_demonware.Common.{
  [], ℕ, zero, suc, ◌+◌, ◌*◌, ◌%◌, ◌^◌, ◌≤◌, ◌<◌, ◌≡◌, sym, ap, subst, ◌∙◌, List, ◌∷◌, ◌++◌, some,
  length, ltb, arith, All, append_assoc, length-append, drop-append_length, take-append_length,
  true, false, append-nil, map, lt→ltb,
}
use nextendo_demonware.Wire.Varint.{
  append_varint, read_varint, groups, append_varint-groups, length-append_varint,
  read_varint-append_varint,
}
use nextendo_demonware.Proto.Outcome.{done}
use nextendo_demonware.Proto.Fields.{pb_varint_field, pb_bytes_field}
use nextendo_demonware.Proto.Read.{
  Field, varint_payload, bytes_payload, proto_field, proto_loop, economy_proto,
}

-- A field that is written: a number, or bytes.
pub data Part : Type 0 where
  number_part : ℕ → ℕ → Part
  bytes_part : ℕ → List ℕ → Part

-- The field's number fits the tag's byte, below the bit that says that more follows; the value fits.
abbrev pub IsWritable : Part → Type 0
IsWritable (number_part field v) = (0 < field) × (field < 16) × (v < 2 ^ 64)
IsWritable (bytes_part field p) = (0 < field) × (field < 16) × (length p < 2 ^ 64)

abbrev pub field_of : Part → Field
field_of (number_part field v) = record { number = field; wire = 0; value = v; content = [] }
field_of (bytes_part field p) = record { number = field; wire = 2; value = 0; content = p }

abbrev write_part : List ℕ → Part → List ℕ
write_part b (number_part field v) = pb_varint_field b field v
write_part b (bytes_part field p) = pb_bytes_field b field p

-- The parts written one after the other behind b.
abbrev pub write_parts : List ℕ → List Part → List ℕ
write_parts b [] = b
write_parts b (f ∷ fs) = write_parts (write_part b f) fs

-- A tag, or any number below 128, at the end of b.
read_tag :
    (b rest : List ℕ) (t : ℕ)
    → t < 128
    → read_varint (b ++ t ∷ rest) (length b) ≡ some (t, suc (length b))
unfolding groups
read_tag b rest t h =
    let one_group : groups 9 t ≡ t ∷ [] = ground arith in
    let g : append_varint b t ≡ b ++ t ∷ [] =
      append_varint-groups b t (omega arith) ∙ ap (λ c. b ++ c) one_group in
    let n : length (b ++ t ∷ []) ≡ suc (length b) = omega (arith, length-append b (t ∷ [])) in
    ap (λ w. read_varint w (length b)) (sym (append_assoc b (t ∷ []) rest))
    ∙ subst (λ w. read_varint (w ++ rest) (length b) ≡ some (t, length w)) g
        (read_varint-append_varint b rest t (omega arith))
    ∙ ap (λ k. some (t, k)) n

-- A number behind a tag t: its varint is read back behind the tag.
pub read_value :
    (b rest : List ℕ) (t v : ℕ)
    → v < 2 ^ 64
    → read_varint (append_varint (b ++ t ∷ []) v ++ rest) (suc (length b))
      ≡ some (v, length (append_varint (b ++ t ∷ []) v))
read_value b rest t v h =
    let n : suc (length b) ≡ length (b ++ t ∷ []) = omega (arith, length-append b (t ∷ [])) in
    ap (read_varint (append_varint (b ++ t ∷ []) v ++ rest)) n
    ∙ read_varint-append_varint (b ++ t ∷ []) rest v h

-- The tag in front of it.
read_first :
    (b rest : List ℕ) (t v : ℕ)
    → t < 128
    → v < 2 ^ 64
    → read_varint (append_varint (b ++ t ∷ []) v ++ rest) (length b) ≡ some (t, suc (length b))
read_first b rest t v ht h =
    ap (λ w. read_varint (w ++ rest) (length b)) (append_varint-groups (b ++ t ∷ []) v h)
    ∙ ap (λ w. read_varint w (length b))
        (append_assoc (b ++ t ∷ []) (groups 9 v) rest
          ∙ append_assoc b (t ∷ []) (groups 9 v ++ rest))
    ∙ read_tag b (groups 9 v ++ rest) t ht

proto_field-number :
    (b rest : List ℕ) (field v : ℕ)
    → IsWritable (number_part field v)
    → proto_field (pb_varint_field b field v ++ rest) (length b)
      ≡ some (field_of (number_part field v), length (pb_varint_field b field v))
unfolding pb_varint_field proto_field varint_payload
proto_field-number b rest field v (positive, small, h) =
    let t : ℕ = field * 8 % 256 in
    rw (read_first b rest t v (omega arith) h, proto_field)
      (ground (arith, read_value b rest t v h))

proto_field-bytes :
    (b rest p : List ℕ) (field : ℕ)
    → IsWritable (bytes_part field p)
    → proto_field (pb_bytes_field b field p ++ rest) (length b)
      ≡ some (field_of (bytes_part field p), length (pb_bytes_field b field p))
unfolding pb_bytes_field proto_field bytes_payload
proto_field-bytes b rest p field (positive, small, h) =
    let t : ℕ = field * 8 % 256 + 2 in
    let w : List ℕ = append_varint (b ++ t ∷ []) (length p) in
    let e = append_assoc w p rest in
    rw (e, read_first b (p ++ rest) t (length p) (omega arith) h, proto_field)
      (ground (
        arith,
        read_value b (p ++ rest) t (length p) h,
        drop-append_length w (p ++ rest),
        take-append_length p rest,
        length-append w (p ++ rest),
        length-append p rest,
        length-append w p,
      ))

pub write_part-extends :
    (b : List ℕ) (f : Part)
    → IsWritable f
    → (rest : List ℕ) × (write_part b f ≡ b ++ rest) × (0 < length rest)
unfolding pb_varint_field pb_bytes_field
write_part-extends b (number_part field v) (positive, small, h) =
    let t : ℕ = field * 8 % 256 in
    (
      t ∷ groups 9 v,
      append_varint-groups (b ++ t ∷ []) v h ∙ append_assoc b (t ∷ []) (groups 9 v),
      omega arith,
    )
write_part-extends b (bytes_part field p) (positive, small, h) =
    let t : ℕ = field * 8 % 256 + 2 in
    (
      t ∷ groups 9 (length p) ++ p,
      ap (λ w. w ++ p) (append_varint-groups (b ++ t ∷ []) (length p) h)
          ∙ append_assoc (b ++ t ∷ []) (groups 9 (length p)) p
          ∙ append_assoc b (t ∷ []) (groups 9 (length p) ++ p),
      omega arith,
    )

write_parts-extends :
    (b : List ℕ) (fs : List Part)
    → All IsWritable fs
    → (rest : List ℕ) × (write_parts b fs ≡ b ++ rest)
write_parts-extends b [] h = ([], sym (append-nil b))
write_parts-extends b (f ∷ fs) (hf, h) =
    let (xs, e, _) = write_part-extends b f hf in
    let (ys, e') = write_parts-extends (write_part b f) fs h in
    (xs ++ ys, e' ∙ ap (λ w. w ++ ys) e ∙ append_assoc b xs ys)

proto_field-write_part :
    (b rest : List ℕ) (f : Part)
    → IsWritable f
    → proto_field (write_part b f ++ rest) (length b) ≡ some (field_of f, length (write_part b f))
proto_field-write_part b rest (number_part field v) h = proto_field-number b rest field v h
proto_field-write_part b rest (bytes_part field p) h = proto_field-bytes b rest p field h

proto_loop-write_parts :
    (fuel : ℕ) (b : List ℕ) (fs : List Part) (out : List Field)
    → All IsWritable fs
    → length fs < fuel
    → length out + length fs ≤ 4096
    → proto_loop fuel (write_parts b fs) (length b) out ≡ done (out ++ map field_of fs)
unfolding proto_loop
proto_loop-write_parts zero b fs out h enough few = elim enough [ ]
proto_loop-write_parts (suc fuel) b [] out h enough few =
    let e : ltb (length b) (length b) ≡ false = ground arith in
    rw (e, proto_loop) (ap done (sym (append-nil out)))
proto_loop-write_parts (suc fuel) b (f ∷ fs) out (hf, h) enough few =
    let b' : List ℕ = write_part b f in
    let (xs, e, long) = write_part-extends b f hf in
    let (ys, e') = write_parts-extends b' fs h in
    let n : length (write_parts b' fs) ≡ length b + length xs + length ys =
      ap length e' ∙ omega (arith, length-append b' ys, ap length e, length-append b xs) in
    let inside : ltb (length b) (length (write_parts b' fs)) ≡ true =
      lt→ltb (length b) (length (write_parts b' fs)) (omega arith) in
    let field : proto_field (write_parts b' fs) (length b) ≡ some (field_of f, length b') =
      ap (λ w. proto_field w (length b)) e' ∙ proto_field-write_part b ys f hf in
    let m = length-append out (field_of f ∷ []) in
    let fits : ltb 4096 (length (out ++ field_of f ∷ [])) ≡ false = ground (arith, m) in
    let ih =
      proto_loop-write_parts fuel b' fs (out ++ field_of f ∷ []) h (omega arith)
        (omega (arith, m)) in
    rw (inside, proto_loop, field, fits)
      (ih ∙ ap done (append_assoc out (field_of f ∷ []) (map field_of fs)))

length-write_parts :
    (b : List ℕ) (fs : List Part)
    → All IsWritable fs
    → length b + length fs ≤ length (write_parts b fs)
length-write_parts b [] h = omega arith
length-write_parts b (f ∷ fs) (hf, h) =
    let (xs, e, long) = write_part-extends b f hf in
    omega (arith, length-write_parts (write_part b f) fs h, ap length e, length-append b xs)

-- Of fields that are numbered from 1 to 15, with values below 2 ^ 64, and that are written one after
-- the other, 4096 at most and in at most 2 ^ 20 bytes, economyProto returns exactly these fields, in
-- order.
pub economy_proto-write_parts :
    (fs : List Part)
    → All IsWritable fs
    → length fs ≤ 4096
    → length (write_parts [] fs) ≤ 2 ^ 20
    → economy_proto (write_parts [] fs) ≡ done (map field_of fs)
unfolding economy_proto
economy_proto-write_parts fs h few small =
    let w : List ℕ = write_parts [] fs in
    let fits : ltb (2 ^ 20) (length w) ≡ false = ground arith in
    rw (fits, economy_proto)
      (proto_loop-write_parts (suc (length w)) [] fs [] h
        (omega (arith, length-write_parts [] fs h)) (omega arith))

pub length-pb_varint_field :
    (b : List ℕ) (field v : ℕ) → v < 2 ^ 64 → length (pb_varint_field b field v) ≤ length b + 11
unfolding pb_varint_field
length-pb_varint_field b field v h =
    let t : ℕ = field * 8 % 256 in
    omega (arith, length-append_varint (b ++ t ∷ []) v h, length-append b (t ∷ []))

pub length-pb_bytes_field :
    (b : List ℕ) (field : ℕ) (p : List ℕ)
    → length p < 2 ^ 64
    → length (pb_bytes_field b field p) ≤ length b + 11 + length p
unfolding pb_bytes_field
length-pb_bytes_field b field p h =
    let t : ℕ = field * 8 % 256 + 2 in
    let w : List ℕ = append_varint (b ++ t ∷ []) (length p) in
    omega (
      arith,
      length-append_varint (b ++ t ∷ []) (length p) h,
      length-append b (t ∷ []),
      length-append w p,
    )
