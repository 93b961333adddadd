-- ===== src/Counter/Traffic.antt =====
-- What the counters of traffic.go show: a refinement of a plain table of two numbers a user.
use v2b_x_turbo.Base.{
  ◌∙◌, inl, inr, Option-cases, ℕ, ◌<◌, ℤ, pos, String, none, some, List, [], ◌∷◌, lookup,
  lookup-store, lookup-delete, string_eq, length, length-append, ◌==◌, if◌then◌else◌, ◌≡◌, refl,
  arith, ap,
}
use text.Mathlib.TextEquality.{eq_iff}
use v2b_x_turbo.Counter.{
  clear, Storage, Counters, new_storage, at, get_counter, get_up_count, get_down_count, add_up,
  add_down, write, reset, delete_counter, rx, tx, new_traffic_counter,
}
use v2b_x_turbo.Counter.Heap.{at-append_old, at-append_new, at-set_self, at-set_ne, length-set}

-- Every counter has a storage on the heap, and no two users share one.
pub record IsValid (c : Counters) : Type 0 where
  pub on_heap : (u : String) (a : ℕ) → lookup u c.counters ≡ some a → a < length c.heap
  pub unshared :
      (u v : String) (a : ℕ) → lookup u c.counters ≡ some a → lookup v c.counters ≡ some a → u ≡ v

-- The two numbers of a user: 0 and 0 where there is no counter.
unfoldable pub view : Counters → String → Storage
view c u = elim (lookup u c.counters) [ some a ↦ at c.heap a | none ↦ new_storage ]

get_counter-IsValid : (u : String) (c : Counters) → IsValid c → IsValid (get_counter u c).1
unfolding get_counter
get_counter-IsValid u c v = record {
  on_heap = λ w a h. ground (
    arith,
    lookup-store u w (length c.heap) c.counters,
    length-append c.heap (new_storage ∷ []),
    v.on_heap w a,
    eq_iff u w,
  );
  unshared = λ w w' a h h'. ground (
    arith,
    lookup-store u w (length c.heap) c.counters,
    lookup-store u w' (length c.heap) c.counters,
    v.on_heap w a,
    v.on_heap w' a,
    v.unshared w w' a,
    eq_iff u w,
    eq_iff u w',
  );
}

write-IsValid : (a : ℕ) (f : Storage → Storage) (c : Counters) → IsValid c → IsValid (write a f c)
unfolding write
write-IsValid a f c v = record {
  on_heap = λ w b h. ground (arith, length-set c.heap a (f (at c.heap a)), v.on_heap w b);
  unshared = v.unshared;
}

delete_counter-IsValid : (u : String) (c : Counters) → IsValid c → IsValid (delete_counter u c)
unfolding delete_counter
delete_counter-IsValid u c v = record {
  on_heap = λ w a h. ground (arith, lookup-delete u w c.counters, v.on_heap w a);
  unshared = λ w w' a h h'.
      ground
        (arith, lookup-delete u w c.counters, lookup-delete u w' c.counters, v.unshared w w' a);
}

-- `GetCounter` changes no number, and its address is the user's.
get_counter_lem :
    (u : String) (c : Counters)
    → IsValid c
    → (lookup u (get_counter u c).1.counters ≡ some (get_counter u c).0)
      × ((w : String) → view (get_counter u c).1 w ≡ view c w)
unfolding get_counter view
get_counter_lem u c v = (
  ground (arith, lookup-store u u (length c.heap) c.counters, eq_iff u u),
  λ w. elim (Option-cases (lookup u c.counters)) [
    | inr (a, e) ↦ rw (get_counter, e) refl
    | inl e ↦ elim (Option-cases (lookup w c.counters)) [
      | inl n ↦ ground (
        arith,
        lookup-store u w (length c.heap) c.counters,
        eq_iff u w,
        at-append_new c.heap new_storage,
      )
      | inr (b, n) ↦ ground (
        arith,
        lookup-store u w (length c.heap) c.counters,
        eq_iff u w,
        at-append_old c.heap new_storage b,
        v.on_heap w b,
      )
    ]
  ],
)

-- A write through a user's pointer changes that user's numbers and nobody else's.
pub view-write :
    (u w : String) (a : ℕ) (f : Storage → Storage) (c : Counters)
    → IsValid c
    → lookup u c.counters ≡ some a
    → view (write a f c) w ≡ (if u == w then f (view c w) else view c w)
unfolding write view
view-write u w a f c v e = elim (Option-cases (lookup w c.counters)) [
  | inl n ↦ ground (arith, eq_iff u w)
  | inr (b, n) ↦ ground (
    arith,
    eq_iff u w,
    at-set_self c.heap a (f (at c.heap a)),
    at-set_ne c.heap a b (f (at c.heap a)),
    v.on_heap u a,
    v.unshared u w a,
  )
]

-- The methods that change a counter.
pub data Op : Type 0 where
  get : String → Op
  rx_op tx_op : String → ℤ → Op
  reset_op delete_op : String → Op

unfoldable pub run_op : Op → Counters → Counters
run_op (get u) c = (get_counter u c).1
run_op (rx_op u n) c = rx u n c
run_op (tx_op u n) c = tx u n c
run_op (reset_op u) c = reset u c
run_op (delete_op u) c = delete_counter u c

-- What each means for a table of two numbers a user.
unfoldable pub table_op : Op → String → Storage → Storage
table_op (get u) w s = s
table_op (rx_op u n) w s = if u == w then add_down n s else s
table_op (tx_op u n) w s = if u == w then add_up n s else s
table_op (reset_op u) w s = if u == w then new_storage else s
table_op (delete_op u) w s = if u == w then new_storage else s

run_op-IsValid : (op : Op) (c : Counters) → IsValid c → IsValid (run_op op c)
unfolding run_op rx tx reset
run_op-IsValid (get u) c v = get_counter-IsValid u c v
run_op-IsValid (rx_op u n) c v =
    write-IsValid (get_counter u c).0 (add_down n) (get_counter u c).1 (get_counter-IsValid u c v)
run_op-IsValid (tx_op u n) c v =
    write-IsValid (get_counter u c).0 (add_up n) (get_counter u c).1 (get_counter-IsValid u c v)
run_op-IsValid (reset_op u) c v = elim (Option-cases (lookup u c.counters)) [
  | inl e ↦ rw (e, reset) v
  | inr (a, e) ↦ rw (e, reset) (write-IsValid a clear c v)
]
run_op-IsValid (delete_op u) c v = delete_counter-IsValid u c v

view-run_op :
    (op : Op) (c : Counters) (w : String)
    → IsValid c
    → view (run_op op c) w ≡ table_op op w (view c w)
unfolding run_op table_op reset view clear
view-run_op (get u) c w v = (get_counter_lem u c v).1 w
view-run_op (rx_op u n) c w v =
    unfold rx in
    let g = get_counter_lem u c v in
    rw
      (
        view-write u w (get_counter u c).0 (add_down n) (get_counter u c).1
            (get_counter-IsValid u c v) g.0,
        g.1 w,
      )
      refl
view-run_op (tx_op u n) c w v =
    unfold tx in
    let g = get_counter_lem u c v in
    rw
      (
        view-write u w (get_counter u c).0 (add_up n) (get_counter u c).1
            (get_counter-IsValid u c v) g.0,
        g.1 w,
      )
      refl
view-run_op (reset_op u) c w v = elim (Option-cases (lookup u c.counters)) [
  | inl e ↦ unfold reset view in ground (arith, eq_iff u w)
  | inr (a, e) ↦ rw (reset, e, view-write u w a clear c v e) refl
]
view-run_op (delete_op u) c w v =
    unfold delete_counter view in ground (arith, lookup-delete u w c.counters)

unfoldable pub run_ops : List Op → Counters → Counters
unfolding run_op
run_ops [] c = c
run_ops (op ∷ ops) c = run_ops ops (run_op op c)

unfoldable pub table_ops : List Op → String → Storage → Storage
unfolding table_op
table_ops [] w s = s
table_ops (op ∷ ops) w s = table_ops ops w (table_op op w s)

run_ops-table_ops :
    (ops : List Op) (c : Counters) (w : String)
    → IsValid c
    → IsValid (run_ops ops c) × (view (run_ops ops c) w ≡ table_ops ops w (view c w))
unfolding run_ops table_ops
run_ops-table_ops [] c w v = (v, refl)
run_ops-table_ops (op ∷ ops) c w v =
    let ih = run_ops-table_ops ops (run_op op c) w (run_op-IsValid op c v) in
    (ih.0, ih.1 ∙ ap (table_ops ops w) (view-run_op op c w v))

new_traffic_counter-IsValid : IsValid new_traffic_counter
unfolding new_traffic_counter lookup
new_traffic_counter-IsValid = record { on_heap = λ u a h. cc; unshared = λ u v a h h'. cc }

up_view : (c : Counters) (w : String) → get_up_count w c ≡ (view c w).up_counter
unfolding get_up_count view
up_view c w = ground arith

down_view : (c : Counters) (w : String) → get_down_count w c ≡ (view c w).down_counter
unfolding get_down_count view
down_view c w = ground arith

-- After any sequence of method calls on a new `TrafficCounter`, the counts that it shows for a user
-- are those of a plain table: what was sent and received since the user's last reset or delete,
-- added up in `int64`.
pub counts-run_ops :
    (ops : List Op) (w : String)
    → let c = run_ops ops new_traffic_counter in
      (get_up_count w c ≡ (table_ops ops w new_storage).up_counter)
      × (get_down_count w c ≡ (table_ops ops w new_storage).down_counter)
unfolding lookup new_traffic_counter view
counts-run_ops ops w =
    let c = run_ops ops new_traffic_counter in
    let e = (run_ops-table_ops ops new_traffic_counter w new_traffic_counter-IsValid).1 in
    (up_view c w ∙ ap (λ s. s.up_counter) e, down_view c w ∙ ap (λ s. s.down_counter) e)

-- What a connection adds through the pointer that it holds after its user's counter was deleted
-- reaches no count.
pub write-delete_counter :
    (u w : String) (a : ℕ) (f : Storage → Storage) (c : Counters)
    → IsValid c
    → lookup u c.counters ≡ some a
    → let c' = write a f (delete_counter u c) in
      (get_up_count w c' ≡ (if u == w then pos 0 else get_up_count w c))
      × (get_down_count w c' ≡ (if u == w then pos 0 else get_down_count w c))
unfolding get_up_count get_down_count write delete_counter
write-delete_counter u w a f c v e = elim (Option-cases (lookup w c.counters)) [
  | inl n ↦ ground (arith, lookup-delete u w c.counters)
  | inr (b, n) ↦ ground (
    arith,
    lookup-delete u w c.counters,
    at-set_ne c.heap a b (f (at c.heap a)),
    v.unshared u w a,
    eq_iff u w,
  )
]
