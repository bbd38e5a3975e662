-- ===== src/Stats/Handler.antt =====
-- onCTRStats (ctr_stats.go): service tasks 1, 4 and 13.
use nextendo_demonware.Common.{
  ℕ, zero, suc, ◌%◌, ◌^◌, Bool, not, ◌&&◌, ◌||◌, List, [], ◌∷◌, none, some, ltb, leb, ◌==◌,
  if◌then◌else◌, length, take,
}
use nextendo_demonware.Common.Select.{keep, contains}
use nextendo_demonware.Wire.Writer
use nextendo_demonware.Wire.Reader.{◌>>=◌, ◌>>◌, Reader, Read, Result, ok, err, is_end}
use nextendo_demonware.Wire.Reader
use nextendo_demonware.Wire.Reply.{task_reply}
use nextendo_demonware.Stats.Types.{Stat, StatWrite, octane_board, bits_of}
use nextendo_demonware.Stats.Store.{write_loop, read}
use nextendo_demonware.Stats.Parse.{parse_stat_writes, give, refuse_if, is_empty}

-- The rows of task 4: those from a rank on, of which `sent` are there already.
unfoldable pub page_loop : ℕ → ℕ → ℕ → List Stat → List Stat
page_loop start limit sent [] = []
page_loop start limit sent (s ∷ rest) =
    let with_this = page_loop start limit (suc sent) rest in
    let without = page_loop start limit sent rest in
    if leb start s.rank && ltb sent limit then s ∷ with_this else without

-- What is asked for: a page from a rank on, or the rows of some accounts.
pub data Query : Type 0 where
  page : ℕ → ℕ → Query
  accounts : List ℕ → Query

unfoldable pub select : Query → List Stat → List Stat
unfolding page_loop
select (page start limit) all = page_loop start limit 0 all
select (accounts ids) all = keep (λ (s : Stat). contains s.pid ids) all

unfoldable total_of : Query → List Stat → List Stat → ℕ
total_of (page start limit) all rows = length all % 2 ^ 32
total_of (accounts ids) all rows = length rows % 2 ^ 32

-- The ids of task 13.
unfoldable read_ids : ℕ → Read (List ℕ)
unfolding Reader.u64
read_ids zero = give []
read_ids (suc n) = do id ← Reader.u64; ids ← read_ids n; give (id ∷ ids)

abbrev read_page : Read Query
read_page = do
  start ← Reader.u64
  limit ← Reader.u32
  refuse_if (ltb 1000 limit)
  give (page (if start == 0 then 1 else start) limit)

unfoldable read_accounts : Read Query
unfolding read_ids
read_accounts = do n ← Reader.u32; refuse_if (ltb 1000 n); ids ← read_ids n; give (accounts ids)

abbrev at_end : Read (Unit {0})
at_end r = refuse_if (not (is_end r)) r

-- The board and what is asked of it.
unfoldable read_query : ℕ → Read (ℕ × Query)
unfolding read_accounts
read_query task = do
  board ← Reader.u32
  query ← (if task == 4 then read_page else read_accounts)
  cols ← Reader.u32
  refuse_if (not (cols == 0))
  at_end
  give (board, query)

-- One row of statsReply.
unfoldable row_reply : List ℕ → Stat → List ℕ
unfolding octane_board bits_of Writer.u64 Writer.i64 Writer.strv Writer.u32
row_reply w s =
    let w' = Writer.u64 (Writer.i64 (Writer.u64 w s.pid) (bits_of s.score)) s.rank in
    let w'' = Writer.u32 (Writer.strv w' (take 63 s.name)) s.updated in
    if octane_board s.board then Writer.u32 w'' s.driver else w''

unfoldable rows_reply : List ℕ → List Stat → List ℕ
unfolding row_reply
rows_reply w [] = w
rows_reply w (s ∷ rest) = rows_reply (row_reply w s) rest

unfoldable stats_reply : ℕ → ℕ → List Stat → ℕ → List ℕ
unfolding rows_reply Writer.u64 Writer.u32 Writer.u8
stats_reply transaction task rows total =
    let w =
      Writer.u32 (Writer.u8 (Writer.u32 (Writer.u64 [] transaction) 0) task)
        (length rows % 2 ^ 32) in
    if is_empty rows then w else rows_reply (Writer.u32 w total) rows

-- The answer and the store after it.
abbrev pub Answer : Type 0
Answer = List ℕ × List Stat

abbrev pub failed : ℕ → ℕ → List Stat → Answer
failed transaction task store = (task_reply transaction task 1 (0, []), store)

-- `saves` says whether the new file can be put in the place of the old one.
abbrev pub upload : ℕ → ℕ → Bool → List Stat → Result (List StatWrite) → Answer
upload transaction task saves store (err e) = failed transaction task store
upload transaction task saves store (ok ws) = elim (write_loop ws store) [
  | none ↦ failed transaction task store
  | some store' ↦
      if saves
      then (task_reply transaction task 0 (0, []), store')
      else failed transaction task store
]

abbrev download : ℕ → ℕ → List Stat → Result (ℕ × Query) → Answer
download transaction task store (err e) = failed transaction task store
download transaction task store (ok (board, query)) =
    let all = read board store in
    let rows = select query all in
    (stats_reply transaction task rows (total_of query all rows), store)

-- `allowed` says whether the connection is online with this title, `transaction` is what the counter
-- returns, and the store's file is there and readable.
unfoldable on_ctr_stats : Bool → ℕ → List ℕ → ℕ → ℕ → Bool → ℕ → Reader → List Stat → Answer
unfolding parse_stat_writes read_query
on_ctr_stats allowed pid name now transaction saves task r store =
    if not allowed || pid == 0
    then failed transaction task store
    else if task == 1
    then upload transaction task saves store (parse_stat_writes pid name now r).0
    else if not (task == 4) && not (task == 13)
    then failed transaction task store
    else download transaction task store (read_query task r).0
