-- ===== src/Counter/Conn.antt =====
-- common/counter/conn.go and xraytraffic.go: the connections that count. What the wrapped
-- connection answers to each call is an argument: how many bytes it moved, and whether it failed.
use v2b_x_turbo.Base.{
  ◌≢◌, ℕ, ℤ, pos, ◌+ℤ◌, int64, int64_of_range, pos-+ℤ, Bool, true, false, List, [], ◌∷◌, ltb,
  if◌then◌else◌, ◌≡◌, arith,
}
use Prim.Native.Nat.{◌+◌, ◌<◌}
use v2b_x_turbo.Counter.{Storage, add_up, add_down}

-- `ConnCounter.Read` and `Write` store the number of the call.
unfoldable pub read : ℤ → Storage → Storage
read n s = record s { up_counter = n }

unfoldable pub write_conn : ℤ → Storage → Storage
write_conn n s = record s { down_counter = n }

-- `ReadBuffer`: `n` is the buffer's length after the call.
unfoldable pub read_buffer : Bool → ℕ → Storage → Storage
unfolding add_up
read_buffer failed n s = if failed then s else if ltb 0 n then add_up (pos n) s else s

-- `WriteBuffer`: `n` is the buffer's length before the call.
unfoldable pub write_buffer : Bool → ℕ → Storage → Storage
unfolding add_down
write_buffer failed n s = if failed then s else if ltb 0 n then add_down (pos n) s else s

-- `PacketConnCounter.ReadPacket` and `WritePacket`.
unfoldable pub read_packet : Bool → ℕ → Storage → Storage
unfolding add_up
read_packet failed n s = if failed then s else add_up (pos n) s

unfoldable pub write_packet : Bool → ℕ → Storage → Storage
unfolding add_down
write_packet failed n s = if failed then s else if ltb 0 n then add_down (pos n) s else s

-- `readFunc` and `writeFunc`, which the unwrapped connection's users call.
unfoldable pub read_func : ℤ → Storage → Storage
unfolding add_up
read_func = add_up

unfoldable pub write_func : ℤ → Storage → Storage
unfolding add_down
write_func = add_down

-- `XrayTrafficCounter`: an `atomic.Int64` under xray's interface. `Set` answers the old value, `Add`
-- the new one.
unfoldable pub value : ℤ → ℤ
value v = v

unfoldable pub set_value : ℤ → ℤ → ℤ × ℤ
set_value new_value v = (v, new_value)

unfoldable pub add_value : ℤ → ℤ → ℤ × ℤ
add_value delta v = (int64 (v +ℤ delta), int64 (v +ℤ delta))

-- The calls by which a connection moves bytes, but `Read` and `Write`.
pub data Call : Type 0 where
  read_buffer_call write_buffer_call : Bool → ℕ → Call
  read_packet_call write_packet_call : Bool → ℕ → Call
  read_func_call write_func_call : ℕ → Call

unfoldable pub call : Call → Storage → Storage
unfolding read_buffer write_buffer read_packet write_packet read_func write_func
call (read_buffer_call failed n) s = read_buffer failed n s
call (write_buffer_call failed n) s = write_buffer failed n s
call (read_packet_call failed n) s = read_packet failed n s
call (write_packet_call failed n) s = write_packet failed n s
call (read_func_call n) s = read_func (pos n) s
call (write_func_call n) s = write_func (pos n) s

unfoldable pub calls : List Call → Storage → Storage
unfolding call
calls [] s = s
calls (c ∷ cs) s = calls cs (call c s)

abbrev moved : Bool → ℕ → ℕ
moved true n = 0
moved false n = n

-- The bytes that a call moves up, and down.
abbrev pub up_bytes : Call → ℕ
up_bytes (read_buffer_call failed n) = moved failed n
up_bytes (read_packet_call failed n) = moved failed n
up_bytes (read_func_call n) = n
up_bytes _ = 0

abbrev pub down_bytes : Call → ℕ
down_bytes (write_buffer_call failed n) = moved failed n
down_bytes (write_packet_call failed n) = moved failed n
down_bytes (write_func_call n) = n
down_bytes _ = 0

abbrev pub total : (Call → ℕ) → List Call → ℕ
total f [] = 0
total f (c ∷ cs) = f c + total f cs

call_lem :
    (c : Call) (s : Storage) (up down : ℕ)
    → s.up_counter ≡ pos up
    → s.down_counter ≡ pos down
    → up + up_bytes c < 9223372036854775808
    → down + down_bytes c < 9223372036854775808
    → ((call c s).up_counter ≡ pos (up + up_bytes c))
      × ((call c s).down_counter ≡ pos (down + down_bytes c))
unfolding call add_up add_down
call_lem (read_buffer_call failed n) s up down u d fu fd =
    ground (arith, pos-+ℤ up n, int64_of_range (up + n))
call_lem (write_buffer_call failed n) s up down u d fu fd =
    ground (arith, pos-+ℤ down n, int64_of_range (down + n))
call_lem (read_packet_call failed n) s up down u d fu fd =
    ground (arith, pos-+ℤ up n, int64_of_range (up + n))
call_lem (write_packet_call failed n) s up down u d fu fd =
    ground (arith, pos-+ℤ down n, int64_of_range (down + n))
call_lem (read_func_call n) s up down u d fu fd =
    ground (arith, pos-+ℤ up n, int64_of_range (up + n))
call_lem (write_func_call n) s up down u d fu fd =
    ground (arith, pos-+ℤ down n, int64_of_range (down + n))

-- Whatever calls a connection makes but `Read` and `Write`, its storage counts up all bytes that
-- the successful calls moved, in each direction, as long as the totals fit an `int64`.
pub calls-total :
    (cs : List Call) (s : Storage) (up down : ℕ)
    → s.up_counter ≡ pos up
    → s.down_counter ≡ pos down
    → up + total up_bytes cs < 9223372036854775808
    → down + total down_bytes cs < 9223372036854775808
    → ((calls cs s).up_counter ≡ pos (up + total up_bytes cs))
      × ((calls cs s).down_counter ≡ pos (down + total down_bytes cs))
unfolding calls
calls-total [] s up down u d fu fd = ground arith
calls-total (c ∷ cs) s up down u d fu fd =
    let h = call_lem c s up down u d (omega arith) (omega arith) in
    let ih =
      calls-total cs (call c s) (up + up_bytes c) (down + down_bytes c) h.0 h.1 (omega arith)
        (omega arith) in
    ground (arith, ih)

grows : (a n : ℕ) → 0 < a → a < 9223372036854775808 → pos n ≢ int64 (pos a +ℤ pos n)
unfolding int64 ◌+ℤ◌
grows a n p h = ground arith

-- A `Read`, or a `Write`, that follows any such calls loses what they counted: where bytes were
-- moved before, the count of its direction is not the total.
pub read_loses :
    (cs : List Call) (s : Storage) (up down n : ℕ)
    → s.up_counter ≡ pos up
    → s.down_counter ≡ pos down
    → up + total up_bytes cs < 9223372036854775808
    → down + total down_bytes cs < 9223372036854775808
    → (0 < up + total up_bytes cs
        → (read (pos n) (calls cs s)).up_counter ≢ int64 ((calls cs s).up_counter +ℤ pos n))
      × (0 < down + total down_bytes cs
          → (write_conn (pos n) (calls cs s)).down_counter
            ≢ int64 ((calls cs s).down_counter +ℤ pos n))
unfolding read write_conn
read_loses cs s up down n u d fu fd =
    let h = calls-total cs s up down u d fu fd in
    (λ p. rw h.0 (grows _ n p fu), λ p. rw h.1 (grows _ n p fd))
