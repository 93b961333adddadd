-- ===== src/Tests/CounterTests.antt =====
-- common/: the theorems on two users, short texts and a task that runs.
use v2b_x_turbo.Base.{
  get_elem?, ℕ, ◌≤◌, pos, false, some, Result, ok, List, [], ◌∷◌, ◌++◌, ◌≡◌, refl, arith, string_eq,
  length,
}
use v2b_x_turbo.Counter.{new_traffic_counter, new_storage, get_up_count, get_down_count}
use v2b_x_turbo.Counter.Traffic.{Op, rx_op, tx_op, reset_op, run_ops, table_ops, counts-run_ops}
use v2b_x_turbo.Counter.Conn.{
  Call, read_buffer_call, write_packet_call, read_func_call, calls, calls-total,
}
use v2b_x_turbo.Json5.{Bytes, prep}
use v2b_x_turbo.Json5.Reader.{new_trim_node_reader, read, read_all, read_all_lem}
use v2b_x_turbo.Task.{Event, waiting, ended, start_call, close_call, enter, new_task, step, run}
use v2b_x_turbo.Task.Channels.{IsValid as HasChannels}
use v2b_x_turbo.Task.Ending.{finish, finish_lem, run_lem}

abbrev ops : List Op
ops = rx_op "a" (pos 5) ∷ tx_op "b" (pos 7) ∷ reset_op "b" ∷ rx_op "a" (pos 2) ∷ []

counts-run_ops_example :
    (get_up_count "a" (run_ops ops new_traffic_counter)
      ≡ (table_ops ops "a" new_storage).up_counter)
    × (get_down_count "a" (run_ops ops new_traffic_counter)
        ≡ (table_ops ops "a" new_storage).down_counter)
counts-run_ops_example = counts-run_ops ops "a"

abbrev made : List Call
made = read_buffer_call false 10 ∷ write_packet_call false 20 ∷ read_func_call 5 ∷ []

calls-total_example :
    ((calls made new_storage).up_counter ≡ pos 15)
    × ((calls made new_storage).down_counter ≡ pos 20)
calls-total_example = calls-total made new_storage 0 0 refl refl (omega arith) (omega arith)

-- `[1,//\n]`
abbrev commented : List ℕ
commented = 91 ∷ 49 ∷ 44 ∷ 47 ∷ 47 ∷ 10 ∷ 93 ∷ []

-- The task starts, its goroutine waits, and it is closed.
abbrev waits : List Event
waits = start_call false ∷ enter 0 ∷ []

run_lem_example : HasChannels (run waits new_task)
unfolding run new_task
run_lem_example = run_lem waits refl

finish_lem_example :
    let t' = run (finish 0 (waiting (some 0))) (step close_call (run waits new_task)) in
    (get_elem? t'.goroutines 0 ≡ some ended) × (t'.panicked ≡ false)
unfolding run new_task
finish_lem_example = finish_lem waits 0 (waiting (some 0)) refl refl

-- The text of the sample in a reader that is read once, by slices of five bytes.
abbrev copy : Bytes → Result Bytes × Bytes
copy s = (ok s, [])

read_all_lem_example :
    let (out, st) = read_all copy (5 ∷ 5 ∷ 5 ∷ 5 ∷ []) (new_trim_node_reader commented) in
    (left : Bytes) × (st ≡ record { r = []; br = some left })
    × (out ++ left ≡ prep commented)
    × (length commented ≤ 20
        → (out ≡ prep commented) × ((k : ℕ) → read copy k st ≡ (([], some "EOF"), st)))
read_all_lem_example = read_all_lem copy 5 (5 ∷ 5 ∷ 5 ∷ []) commented [] commented refl
