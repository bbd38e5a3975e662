-- ===== src/Economy/Requests.antt =====
-- parsePurchaseSkus and the inventory's request, and what is sent for an item (ctr_marketplace.go).
use nextendo_demonware.Common.{
  [], ℕ, zero, suc, not, ◌||◌, List, ◌∷◌, Option, none, some, ltb, ◌==◌,
}
use nextendo_demonware.Common.Select.{bytes_eq}
use nextendo_demonware.Wire.Writer
use nextendo_demonware.Wire.Reader.{◌>>=◌, ◌>>◌, Reader, Read}
use nextendo_demonware.Wire.Reader
use nextendo_demonware.Stats.Parse.{give, refuse_if}
use nextendo_demonware.Proto.Names.{context_name, account_kind}

-- n uint32s.
unfoldable pub read_u32s : ℕ → Read (List ℕ)
read_u32s zero = give []
read_u32s (suc n) = do v ← Reader.u32; vs ← read_u32s n; give (v ∷ vs)

-- One quantity for each SKU, which must be one.
unfoldable pub read_ones : ℕ → Read (Unit {0})
read_ones zero = give tt
read_ones (suc n) = do q ← Reader.u32; refuse_if (not (q == 1)); read_ones n

abbrev pub same_context : List ℕ → Read (Unit {0})
same_context ctx = refuse_if (not (bytes_eq ctx context_name))

unfoldable pub parse_purchase_skus : Read (List ℕ)
parse_purchase_skus = do
  ctx ← Reader.str
  same_context ctx
  n ← Reader.u32
  refuse_if (n == 0 || ltb 255 n)
  skus ← read_u32s n
  qn ← Reader.u32
  refuse_if (not (qn == n))
  read_ones n
  give skus

-- parsePurchaseSku, of what parsePurchaseSkus has returned.
unfoldable single_sku : List ℕ → Option ℕ
single_sku [] = none
single_sku (id ∷ []) = some id
single_sku (id ∷ _ ∷ _) = none

-- The page and its size, of an inventory request.
unfoldable pub parse_inventory_request : Read (ℕ × ℕ)
parse_inventory_request = do
  ctx ← Reader.str
  same_context ctx
  page ← Reader.u32
  size ← Reader.u32
  refuse_if (size == 0 || ltb 4096 size)
  give (page, size)

unfoldable pub write_inventory_item : List ℕ → ℕ → ℕ → List ℕ
write_inventory_item w owner item =
    let w = Writer.strv (Writer.u64 w owner) account_kind in
    let w = Writer.u32 (Writer.u32 (Writer.u32 w item) 1) 0 in
    let w = Writer.u32 (Writer.blobv w []) 0 in Writer.u32 (Writer.u16 (Writer.i64 w 0) 0) 0
