-- ===== src/Wire/Reply.antt =====
-- Replies (services.go, ctr_marketplace.go). `transactions` is the value that the counter's `Add(1)`
-- returned.
use nextendo_demonware.Common.{
  [], ℕ, ◌+◌, ◌%◌, ◌^◌, List, ◌∷◌, ◌++◌, length, ltb, ◌==◌, if◌then◌else◌,
}
use nextendo_demonware.Wire.Writer
use nextendo_demonware.Wire.Varint.{append_varint}

-- `transactions.Add(1)`: the counter's new value, which is returned too.
unfoldable next_id : ℕ → ℕ
next_id n = (n + 1) % 2 ^ 64

-- The results of a task are its number of results and the bytes that it wrote into `body`.
unfoldable pub task_reply : ℕ → ℕ → ℕ → ℕ × List ℕ → List ℕ
unfolding Writer.u64 Writer.u32 Writer.u8
task_reply transaction task err_code (n, body) =
    let w = Writer.u32 (Writer.u64 [] transaction) err_code in
    if err_code == 0
    then (let w' = Writer.u32 (Writer.u8 w task) n in
        if ltb 0 n then Writer.u32 w' n ++ body else w')
    else w

unfoldable pub struct_task_reply : ℕ → ℕ → List ℕ → List ℕ
unfolding Writer.u64 Writer.u32 Writer.u8 Writer.structv
struct_task_reply transaction task sb =
    Writer.structv (Writer.u8 (Writer.u32 (Writer.u64 [] transaction) 0) task) sb

unfoldable http_proxy_body : ℕ → List ℕ → List ℕ
unfolding append_varint
http_proxy_body status body =
    let sb = append_varint (0x08 ∷ []) status in
    let sb = append_varint (sb ++ 0x10 ∷ []) status in
    append_varint (sb ++ 0x1A ∷ []) (length body) ++ body

unfoldable http_proxy_reply : ℕ → ℕ → ℕ → List ℕ → List ℕ
unfolding struct_task_reply http_proxy_body
http_proxy_reply transaction task status body =
    struct_task_reply transaction task (http_proxy_body status body)
