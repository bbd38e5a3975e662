-- ===== src/Wire/Varint.antt =====
-- Base-128 varints: appendVarint of services.go, and readVarint of riftdata.go, which calls
-- binary.Uvarint of Go's library.
use mathlib.Core.Logic.{dite}
use mathlib.Core.WellFounded.{Acc}
use native.Mathlib.Nat.{div-add-mod}
use native.Mathlib.Numerals.{towards_suc}
use nextendo_demonware.Common.{
  [], ℕ, zero, suc, ◌+◌, ◌*◌, ◌/◌, ◌%◌, ◌^◌, ◌≤◌, ◌<◌, ◌≡◌, refl, ap, ◌&&◌, List, ◌∷◌, ◌++◌, Option,
  none, some, ltb, leb, ◌==◌, if◌then◌else◌, length, drop, arith, append_assoc, length-append,
  drop-append_length, dec_le, bit_or,
}
use nextendo_demonware.Common.Bits.{set_top_bit}
use nextendo_demonware.Common.Order.{lt_wf}

pub shrinks : (v : ℕ) → 128 ≤ v → v / 128 < v
shrinks v h = omega arith

-- `for v >= 0x80 { b = append(b, byte(v)|0x80); v >>= 7 }`, then `append(b, byte(v))`.
append_varint_loop : List ℕ → (v : ℕ) → Acc ◌<◌ v → List ℕ
append_varint_loop b v (Acc.intro _ smaller) =
    dite (dec_le 128 v)
      (λ more.
        append_varint_loop (b ++ bit_or (v % 256) 0x80 ∷ []) (v / 128) (smaller _ (shrinks v more)))
      (λ _. b ++ (v % 256) ∷ [])

unfoldable pub append_varint : List ℕ → ℕ → List ℕ
unfolding append_varint_loop lt_wf dec_le
append_varint b v = append_varint_loop b v (lt_wf.apply v)

-- binary.Uvarint on what is left of the buffer: `i` bytes are read, `x` is their value and `s` is
-- 7 * i. Nothing is returned for a buffer that ends inside a number, and for one that does not fit
-- 64 bits; the value comes with the number of bytes that it takes. The bits that `|=` adds lie above
-- those of `x`, so that it is a sum.
unfoldable pub uvarint_loop : List ℕ → ℕ → ℕ → ℕ → Option (ℕ × ℕ)
uvarint_loop [] i x s = none
uvarint_loop (b ∷ bs) i x s =
    let more = uvarint_loop bs (i + 1) (x + b % 128 * 2 ^ s) (s + 7) in
    if i == 10
    then none
    else if ltb b 0x80
    then (if i == 9 && ltb 1 b then none else some (x + b * 2 ^ s, i + 1))
    else more

unfoldable pub uvarint : List ℕ → Option (ℕ × ℕ)
unfolding uvarint_loop
uvarint buf = uvarint_loop buf 0 0 0

-- The value and the offset behind it.
unfoldable pub read_varint : List ℕ → ℕ → Option (ℕ × ℕ)
unfolding uvarint
read_varint b i = elim (uvarint (drop i b)) [ none ↦ none | some (v, n) ↦ some (v, i + n) ]

-- The groups of a number below 128 ^ (k + 1), lowest first.
unfoldable pub groups : ℕ → ℕ → List ℕ
groups zero v = v ∷ []
groups (suc k) v =
    let more = groups k (v / 128) in if leb 128 v then (v % 128 + 128) ∷ more else v ∷ []

append_varint_loop-groups :
    (k : ℕ) (b : List ℕ) (v : ℕ) (w : Acc ◌<◌ v)
    → v < 128 ^ suc k
    → append_varint_loop b v w ≡ b ++ groups k v
unfolding append_varint_loop groups
append_varint_loop-groups zero b v (Acc.intro _ smaller) h = ground arith
append_varint_loop-groups (suc k) b v (Acc.intro _ smaller) h =
    let g : List ℕ = (v % 128 + 128) ∷ [] in
    grind (
      arith,
      set_top_bit (v % 256),
      λ (w : Acc ◌<◌ (v / 128)). append_varint_loop-groups k (b ++ g) (v / 128) w (omega arith),
      append_assoc b g (groups k (v / 128)),
    )

pub append_varint-groups : (b : List ℕ) (v : ℕ) → v < 2 ^ 64 → append_varint b v ≡ b ++ groups 9 v
unfolding append_varint
append_varint-groups b v h = append_varint_loop-groups 9 b v (lt_wf.apply v) (omega arith)

length-groups : (k v : ℕ) → length (groups k v) ≤ suc k
unfolding groups
length-groups zero v = omega arith
length-groups (suc k) v = ground (arith, length-groups k (v / 128))

pub length-append_varint :
    (b : List ℕ) (v : ℕ) → v < 2 ^ 64 → length (append_varint b v) ≤ length b + 10
length-append_varint b v h =
    omega (
      arith,
      ap length (append_varint-groups b v h),
      length-append b (groups 9 v),
      length-groups 9 v,
    )

two_pow-add_seven : (s : ℕ) → 2 ^ (s + 7) ≡ 128 * 2 ^ s
two_pow-add_seven s = simp towards_suc (omega arith)

lowest_group : (w s : ℕ) → w * 2 ^ s ≡ w % 128 * 2 ^ s + w / 128 * 2 ^ (s + 7)
lowest_group w s = omega (
  arith,
  ap (λ (t : ℕ). t * 2 ^ s) (div-add-mod w 128),
  ap (λ (t : ℕ). w / 128 * t) (two_pow-add_seven s),
)

uvarint_loop-groups :
    (k w i x s : ℕ) (rest : List ℕ)
    → i + k ≡ 9
    → w < 2 * 128 ^ k
    → uvarint_loop (groups k w ++ rest) i x s ≡ some (x + w * 2 ^ s, i + length (groups k w))
unfolding uvarint_loop groups
uvarint_loop-groups zero w i x s rest e h = ground arith
uvarint_loop-groups (suc k) w i x s rest e h = ground (
  arith,
  lowest_group w s,
  uvarint_loop-groups k (w / 128) (i + 1) (x + (w % 128 + 128) % 128 * 2 ^ s) (s + 7) rest
      (omega arith) (omega arith),
)

-- Behind any prefix, and whatever follows it, the varint of a uint64 is read back, with the offset
-- of its end.
pub read_varint-append_varint :
    (b rest : List ℕ) (v : ℕ)
    → v < 2 ^ 64
    → read_varint (append_varint b v ++ rest) (length b) ≡ some (v, length (append_varint b v))
unfolding read_varint uvarint
read_varint-append_varint b rest v h =
    rw
      (
        append_varint-groups b v h,
        append_assoc b (groups 9 v) rest,
        read_varint,
        drop-append_length b (groups 9 v ++ rest),
        uvarint_loop-groups 9 v 0 0 0 rest refl (omega arith),
      )
      (ground (arith, length-append b (groups 9 v)))
