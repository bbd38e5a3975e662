-- ===== src/Proto/Asked.antt =====
-- The scan of a balances request, from the typed buffer that onTask passes on.
use nextendo_demonware.Common.{
  [], ℕ, zero, suc, ◌+◌, ◌-◌, ◌*◌, ◌/◌, ◌%◌, ◌^◌, ◌≤◌, ◌<◌, ◌≡◌, refl, sym, ap, ◌∙◌, true, false,
  List, ◌∷◌, ◌++◌, some, length, take, get_or, ltb, ◌==◌, if◌then◌else◌, arith, append-nil,
  length-append, append_assoc, lt→ltb, drop-append_length, take-append_length,
}
use nextendo_demonware.Common.Int.{ℤ, pos, ltb_ℤ, ◌+ℤ◌}
use nextendo_demonware.Common.Bytes.{put_le, get_le, get_le-put_le}
use nextendo_demonware.Stats.Types.{int64_of, wrap_int64}
use nextendo_demonware.Wire.Writer
use nextendo_demonware.Wire.Varint.{append_varint, read_varint, groups, append_varint-groups}
use nextendo_demonware.Proto.Fields.{pb_varint_field, pb_bytes_field}
use nextendo_demonware.Proto.Read.{struct_payload}
use nextendo_demonware.Proto.Written.{read_value, write_part-extends, number_part}
use nextendo_demonware.Proto.Balances.{
  returned, panicked, unfinished, end_of, slice, balances_loop, parse_balances_request,
}
use nextendo_demonware.Proto.Requests.{
  field_of_length, length-field_of_length, balances_loop-forever, balances_loop-panics,
}

-- A task's argument buffer: the service, the task with its tag, and a struct.
abbrev pub task_payload : ℕ → ℕ → List ℕ → List ℕ
task_payload service task sb = Writer.structv (service ∷ 3 ∷ task ∷ []) sb

struct_payload-task_payload :
    (service task : ℕ) (sb : List ℕ)
    → length sb < 2 ^ 31
    → struct_payload (task_payload service task sb) ≡ some sb
unfolding struct_payload Writer.structv Writer.u32 put_le
struct_payload-task_payload service task sb h =
    let small : length sb % 2 ^ 32 ≡ length sb = omega arith in
    let size : get_le (put_le 4 (length sb)) ≡ length sb =
      get_le-put_le 4 (length sb) (omega arith) in
    let all_of_it : take (length sb) sb ≡ sb =
      ap (take (length sb)) (sym (append-nil sb)) ∙ take-append_length sb [] in
    rw small (rw (size, struct_payload) (ground (arith, all_of_it)))

get_or-append_length : (b rest : List ℕ) (t : ℕ) → get_or (b ++ t ∷ rest) (length b) 0 ≡ t
get_or-append_length [] rest t = refl
get_or-append_length (x ∷ b) rest t = get_or-append_length b rest t

-- int64s are added without a wrap where they are small.
end_of-small : (next n : ℕ) → next + n < 2 ^ 63 → end_of next n ≡ pos (next + n)
unfolding end_of wrap_int64 int64_of ◌+ℤ◌
end_of-small next n h = ground arith

-- The tag in front of a number.
tag_first :
    (b rest : List ℕ) (t v : ℕ)
    → v < 2 ^ 64
    → append_varint (b ++ t ∷ []) v ++ rest ≡ b ++ (t ∷ (groups 9 v ++ rest))
tag_first b rest t v h =
    ap (λ w. w ++ rest) (append_varint-groups (b ++ t ∷ []) v h)
    ∙ append_assoc (b ++ t ∷ []) (groups 9 v) rest
    ∙ append_assoc b (t ∷ []) (groups 9 v ++ rest)

tag_at :
    (b rest : List ℕ) (t v : ℕ)
    → v < 2 ^ 64
    → get_or (append_varint (b ++ t ∷ []) v ++ rest) (length b) 0 ≡ t
tag_at b rest t v h =
    ap (λ w. get_or w (length b) 0) (tag_first b rest t v h)
    ∙ get_or-append_length b (groups 9 v ++ rest) t

tag_inside :
    (b rest : List ℕ) (t v : ℕ)
    → v < 2 ^ 64
    → ltb (length b) (length (append_varint (b ++ t ∷ []) v ++ rest)) ≡ true
tag_inside b rest t v h =
    let w : List ℕ = append_varint (b ++ t ∷ []) v ++ rest in
    lt→ltb (length b) (length w) (
      omega (arith, ap length (tag_first b rest t v h), length-append b (t ∷ (groups 9 v ++ rest))))

balances_loop-number :
    (fuel : ℕ) (b rest ctx : List ℕ) (field v : ℕ) (max : ℤ)
    → field < 16
    → v < 2 ^ 64
    → balances_loop (suc fuel) (pb_varint_field b field v ++ rest) (pos (length b)) ctx max
      ≡ balances_loop fuel
          (pb_varint_field b field v ++ rest)
          (pos (length (pb_varint_field b field v)))
          ctx
          (if field == 2 then int64_of v else max)
unfolding balances_loop pb_varint_field
balances_loop-number fuel b rest ctx field v max small h =
    let t : ℕ = field * 8 % 256 in
    let wire : t % 8 ≡ 0 = omega arith in
    let number : t / 8 ≡ field = omega arith in
    let read : read_varint (append_varint (b ++ t ∷ []) v ++ rest) (length b + 1)
        ≡ some (v, length (append_varint (b ++ t ∷ []) v)) =
      ap (read_varint (append_varint (b ++ t ∷ []) v ++ rest)) (omega arith)
      ∙ read_value b rest t v h in
    let tag = tag_at b rest t v h in
    rw (tag_inside b rest t v h, balances_loop, tag, wire, read, tag, wire, tag, number) refl

context_round :
    (fuel : ℕ) (b rest ctx p : List ℕ) (max : ℤ)
    → length (append_varint (b ++ 10 ∷ []) (length p)) + length p < 2 ^ 31
    → let w = append_varint (b ++ 10 ∷ []) (length p) in
      balances_loop (suc fuel) (w ++ (p ++ rest)) (pos (length b)) ctx max
      ≡ balances_loop fuel (w ++ (p ++ rest)) (pos (length w + length p)) p max
unfolding balances_loop slice
context_round fuel b rest ctx p max small =
    let w : List ℕ = append_varint (b ++ 10 ∷ []) (length p) in
    let all : length (w ++ (p ++ rest)) ≡ length w + (length p + length rest) =
      omega (arith, length-append w (p ++ rest), length-append p rest) in
    let h : length p < 2 ^ 64 = omega arith in
    let read : read_varint (w ++ (p ++ rest)) (length b + 1) ≡ some (length p, length w) =
      ap (read_varint (w ++ (p ++ rest))) (omega arith)
      ∙ read_value b (p ++ rest) 10 (length p) h in
    let tag = tag_at b (p ++ rest) 10 (length p) h in
    let stop : end_of (length w) (length p) ≡ pos (length w + length p) =
      end_of-small (length w) (length p) (omega arith) in
    let inside : ltb_ℤ (pos (length (w ++ (p ++ rest)))) (pos (length w + length p)) ≡ false =
      ground arith in
    let forward : ltb_ℤ (pos (length w + length p)) (pos (length w)) ≡ false = ground arith in
    let size : length w + length p - length w ≡ length p = omega arith in
    rw
      (
        tag_inside b (p ++ rest) 10 (length p) h,
        balances_loop,
        tag,
        read,
        tag,
        stop,
        inside,
        tag,
        stop,
        forward,
        size,
        drop-append_length w (p ++ rest),
        take-append_length p rest,
      )
      (ap (λ i. balances_loop fuel (w ++ (p ++ rest)) i p max) stop)

balances_loop-context :
    (fuel : ℕ) (b rest ctx p : List ℕ) (max : ℤ)
    → length (pb_bytes_field b 1 p) < 2 ^ 31
    → balances_loop (suc fuel) (pb_bytes_field b 1 p ++ rest) (pos (length b)) ctx max
      ≡ balances_loop fuel
          (pb_bytes_field b 1 p ++ rest)
          (pos (length (pb_bytes_field b 1 p)))
          p
          max
unfolding pb_bytes_field
balances_loop-context fuel b rest ctx p max small =
    let w : List ℕ = append_varint (b ++ 10 ∷ []) (length p) in
    let both = length-append w p in
    ap (λ sb. balances_loop (suc fuel) sb (pos (length b)) ctx max) (append_assoc w p rest)
    ∙ context_round fuel b rest ctx p max (omega arith)
    ∙ ap (λ n. balances_loop fuel (w ++ (p ++ rest)) (pos n) p max) (sym both)
    ∙ ap (λ sb. balances_loop fuel sb (pos (length (w ++ p))) p max) (sym (append_assoc w p rest))

balances_loop-stops :
    (fuel : ℕ) (sb ctx : List ℕ) (max : ℤ)
    → balances_loop (suc fuel) sb (pos (length sb)) ctx max ≡ returned ctx max
unfolding balances_loop
balances_loop-stops fuel sb ctx max =
    let past : ltb (length sb) (length sb) ≡ false = ground arith in rw (past, balances_loop) refl

-- The request of a client: its context, and how many currencies it asks for.
abbrev pub balances_request : List ℕ → ℕ → List ℕ
balances_request ctx max = pb_varint_field (pb_bytes_field [] 1 ctx) 2 max

-- Of a request as a client writes it, of less than 2 ^ 31 bytes and for a number that fits an int,
-- the context and the number are read, in three rounds.
pub parse_balances_request-balances_request :
    (fuel service task : ℕ) (ctx : List ℕ) (max : ℕ)
    → 3 ≤ fuel
    → max < 2 ^ 63
    → length (balances_request ctx max) < 2 ^ 31
    → parse_balances_request fuel (task_payload service task (balances_request ctx max))
      ≡ returned ctx (pos max)
unfolding parse_balances_request int64_of
parse_balances_request-balances_request zero service task ctx max h k m = absurd (omega arith)
parse_balances_request-balances_request (suc zero) service task ctx max h k m = absurd (omega arith)
parse_balances_request-balances_request (suc (suc zero)) service task ctx max h k m =
    absurd (omega arith)
parse_balances_request-balances_request (suc (suc (suc fuel))) service task ctx max h k m =
    let b : List ℕ = pb_bytes_field [] 1 ctx in
    let sb : List ℕ = balances_request ctx max in
    let (xs, e, long) = write_part-extends b (number_part 2 max) (omega arith) in
    let n : length b < 2 ^ 31 = omega (arith, ap length e, length-append b xs) in
    let first : balances_loop (suc (suc (suc fuel))) sb (pos 0) [] (pos 0)
        ≡ balances_loop (suc (suc fuel)) sb (pos (length b)) ctx (pos 0) =
      ap (λ w. balances_loop (suc (suc (suc fuel))) w (pos 0) [] (pos 0)) e
      ∙ balances_loop-context (suc (suc fuel)) [] xs [] ctx (pos 0) n
      ∙ ap (λ w. balances_loop (suc (suc fuel)) w (pos (length b)) ctx (pos 0)) (sym e) in
    let second : balances_loop (suc (suc fuel)) sb (pos (length b)) ctx (pos 0)
        ≡ balances_loop (suc fuel) sb (pos (length sb)) ctx (int64_of max) =
      ap (λ w. balances_loop (suc (suc fuel)) w (pos (length b)) ctx (pos 0)) (sym (append-nil sb))
      ∙ balances_loop-number (suc fuel) b [] ctx 2 max (pos 0) (omega arith) (omega arith)
      ∙ ap (λ w. balances_loop (suc fuel) w (pos (length sb)) ctx (int64_of max)) (append-nil sb) in
    let fits : int64_of max ≡ pos max = ground arith in
    rw (struct_payload-task_payload service task sb m, parse_balances_request)
      (first ∙ second ∙ balances_loop-stops fuel sb ctx (int64_of max) ∙ ap (returned ctx) fits)

-- A request in which a field other than the context, of a number below 32, claims to be 2 ^ 64 - 11
-- bytes long is never finished with, however many rounds the scan is given, and one in which the
-- context claims to be 2 ^ 63 bytes long or longer ends in a panic.
pub parse_balances_request-long :
    (fuel service task field ln : ℕ) (rest : List ℕ)
    → 1 < field
    → field < 32
    → 2 ^ 63 ≤ ln
    → ln < 2 ^ 64
    → length rest < 2 ^ 30
    → (parse_balances_request fuel
          (task_payload service task (field_of_length field (2 ^ 64 - 11) rest))
        ≡ unfinished)
      × (parse_balances_request (suc fuel) (task_payload service task (field_of_length 1 ln rest))
          ≡ panicked)
unfolding parse_balances_request
parse_balances_request-long fuel service task field ln rest h1 h2 h3 h4 h5 =
    let sb : List ℕ = field_of_length field (2 ^ 64 - 11) rest in
    let sb' : List ℕ = field_of_length 1 ln rest in
    let small : length sb < 2 ^ 31 =
      omega (arith, length-field_of_length field (2 ^ 64 - 11) rest (omega arith)) in
    let small' : length sb' < 2 ^ 31 = omega (arith, length-field_of_length 1 ln rest h4) in
    (
      rw (struct_payload-task_payload service task sb small, parse_balances_request)
          (balances_loop-forever fuel field rest [] (pos 0) h1 h2),
      rw (struct_payload-task_payload service task sb' small', parse_balances_request)
          (balances_loop-panics fuel ln rest [] (pos 0) h3 h4),
    )
