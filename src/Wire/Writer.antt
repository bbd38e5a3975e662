-- ===== src/Wire/Writer.antt =====
-- bdWriter: each method appends to the buffer `w.b`, which is the first argument here.
use nextendo_demonware.Common.{[], ℕ, ◌%◌, ◌^◌, Bool, List, ◌∷◌, ◌++◌, length, if◌then◌else◌}
use nextendo_demonware.Common.Bytes.{put_le}
use nextendo_demonware.Wire.Tags.{
  tag_bool, tag_u8, tag_u16, tag_u32, tag_i64, tag_u64, tag_string, tag_blob, tag_struct,
}

unfoldable pub u8 : List ℕ → ℕ → List ℕ
u8 w v = w ++ tag_u8 ∷ v ∷ []

unfoldable pub strv : List ℕ → List ℕ → List ℕ
strv w s = w ++ tag_string ∷ s ++ 0 ∷ []

unfoldable boolv : List ℕ → Bool → List ℕ
boolv w v = w ++ tag_bool ∷ (if v then 1 else 0) ∷ []

unfoldable pub u16 : List ℕ → ℕ → List ℕ
u16 w v = w ++ tag_u16 ∷ put_le 2 v

unfoldable pub u32 : List ℕ → ℕ → List ℕ
u32 w v = w ++ tag_u32 ∷ put_le 4 v

unfoldable pub u64 : List ℕ → ℕ → List ℕ
u64 w v = w ++ tag_u64 ∷ put_le 8 v

-- An int64 is its bit pattern, the `uint64(v)` that the method writes.
unfoldable pub i64 : List ℕ → ℕ → List ℕ
i64 w v = w ++ tag_i64 ∷ put_le 8 v

-- `uint32(len(p))` wraps.
unfoldable pub blobv : List ℕ → List ℕ → List ℕ
unfolding u32
blobv w p = u32 (w ++ tag_blob ∷ []) (length p % 2 ^ 32) ++ p

unfoldable pub structv : List ℕ → List ℕ → List ℕ
unfolding u32
structv w p = u32 (w ++ tag_struct ∷ []) (length p % 2 ^ 32) ++ p

unfoldable pub raw : List ℕ → List ℕ → List ℕ
raw w p = w ++ p
