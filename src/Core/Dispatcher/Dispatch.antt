-- ===== src/Core/Dispatcher/Dispatch.antt =====
-- core/xray/app/dispatcher/default.go: `getLink` and `DispatchLink`, with the limits
-- and the counters that this repository puts into them, and `Close` of common/rate's
-- writer. What xray-core finds out about a connection (its session, its sniffed protocol, its pipes)
-- are arguments. Sniffing is xray-core's own.
use v2b_x_turbo.Counter.{Storage}
use v2b_x_turbo.Counter.{add_up}
use Prim.Native.String.{◌++◌}
use v2b_x_turbo.Base.{
  pos, ltb, ℕ, ℤ, String, Bool, Option, none, some, Result, ok, err, [], ◌∷◌, lookup, store,
  or_else, get_elem?, set, string_eq, ◌==◌, if◌then◌else◌,
}
use v2b_x_turbo.Limiter.Check.{check_limit}
use v2b_x_turbo.Limiter.Registry.{Limiters, get_limiter}
use v2b_x_turbo.Counter.{new_traffic_counter, get_counter}
use v2b_x_turbo.Core.Dispatcher.{
  close, interrupt, Reader, piped, counted, Dispatcher, emit, close_managed, open_link,
}

-- The writers that are put around each other: that of a pipe, a managed writer by its place, the
-- writer of common/rate, and xray-core's `SizeStatWriter` with the place of its storage.
pub data Writer (Bucket : Type 0) : Type 0 where
  plain : ℕ → Writer Bucket
  managed : ℕ → Writer Bucket
  rate_limited : Writer Bucket → Bucket → Writer Bucket
  up_counted : Writer Bucket → ℕ → Writer Bucket
  down_counted : Writer Bucket → ℕ → Writer Bucket

pub record Link (Bucket : Type 0) : Type 0 where
  pub reader : Reader
  pub writer : Writer Bucket

-- The inbound of the session: its tag, the email of its user (`none` for no user), its source.
pub record Inbound : Type 0 where
  pub tag : String
  pub email : Option String
  pub address : String
  pub is_tcp : Bool

-- The ends of a new pipe.
pub record Pipe : Type 0 where
  pub out : ℕ
  pub into : ℕ

pub record Dispatching (Regex Bucket : Type 0) : Type 0 where
  pub limiters : Limiters Regex Bucket
  pub dispatcher : Dispatcher

-- The counter of a user at a node; each is new if it is missing.
unfoldable pub count : String → String → Dispatcher → ℕ × Dispatcher
count tag email d =
    let (a, t) = get_counter email (or_else new_traffic_counter (lookup tag d.counter)) in
    (a, record d { counter = store tag t d.counter })

-- `ReadMultiBuffer` and `ReadMultiBufferTimeout` of a `CounterReader`, on the storage that it counts
-- in. The argument is what the reader under it gave, by its length.
unfoldable pub read_counted : Result ℕ → Storage → Result ℕ × Storage
unfolding add_up
read_counted (err m) s = (err m, s)
read_counted (ok n) s = if ltb 0 n then (ok n, add_up (pos n) s) else (ok n, s)

-- `common.Close`: each writer closes the one that it is around.
unfoldable pub close_writer : {Bucket : Type 0} → Writer Bucket → Dispatcher → Dispatcher
unfolding emit close_managed
close_writer (plain n) d = emit (close n ∷ []) d
close_writer (managed w) d = close_managed w d
close_writer (rate_limited w b) d = close_writer w d
close_writer (up_counted w a) d = close_writer w d
close_writer (down_counted w a) d = close_writer w d

-- `NewRateLimitWriter`, if there is a bucket.
unfoldable pub limit_writer : {Bucket : Type 0} → Option Bucket → Writer Bucket → Writer Bucket
limit_writer none w = w
limit_writer (some b) w = rate_limited w b

module _ {Regex Bucket : Type 0} (new_bucket : ℤ → ℤ → ℤ → Bucket) (now : ℤ) where
  -- The limiter of the node and its check: the limiter, with the bucket of the check. A number in
  -- the map of limiters is that of an object.
  unfoldable pub admit :
      String
      → String
      → String
      → Bool
      → Limiters Regex Bucket
      → Result (ℕ × Option Bucket) × Limiters Regex Bucket
  admit tag email address is_tcp ls = elim (get_limiter tag ls) [
    | err e ↦ (err ("get limiter " ++ tag ++ " error: " ++ e), ls)
    | ok k ↦ elim (get_elem? ls.objects k) [
      | none ↦ (err "", ls)
      | some l ↦
          let v = check_limit new_bucket now email address is_tcp l in
          let ls' = record ls { objects = set ls.objects k v.after } in
          if v.reject
          then (err ("Limited " ++ email ++ " by conn or ip"), ls')
          else (ok (k, v.bucket), ls')
    ]
  ]

  -- `getLink`: the links of the inbound and the outbound, and the limiter.
  unfoldable pub get_link :
      Pipe
      → Pipe
      → Inbound
      → Dispatching Regex Bucket
      → Result (Link Bucket × Link Bucket × Option ℕ) × Dispatching Regex Bucket
  unfolding admit count open_link limit_writer emit
  get_link up down i s =
      let email = or_else "" i.email in
      if email == ""
      then (
        ok (
          record { reader = piped down.out; writer = plain up.into },
          record { reader = piped up.out; writer = plain down.into },
          none,
        ),
        s,
      )
      else (let (r, ls) = admit i.tag email i.address i.is_tcp s.limiters in
          elim r [
            | err e ↦ (
              err e,
              record {
                limiters = ls;
                dispatcher =
                    emit
                      (close down.into ∷ close up.into ∷ interrupt up.out ∷ interrupt down.out ∷ [])
                      s.dispatcher;
              },
            )
            | ok (k, b) ↦
                let (w, d) = open_link email up.into (piped up.out) s.dispatcher in
                let (a, d') = count i.tag email d in
                (
                  ok (
                    record {
                      reader = piped down.out;
                      writer = up_counted (limit_writer b (managed w)) a;
                    },
                    record {
                      reader = piped up.out;
                      writer = down_counted (limit_writer b (plain down.into)) a;
                    },
                    some k,
                  ),
                  record { limiters = ls; dispatcher = d' },
                )
          ])

  -- `DispatchLink` up to the sniffing, on a link of the caller's. The counter, which the reader
  -- needs, comes before the link manager here; the two maps are apart.
  unfoldable pub dispatch_link :
      Pipe
      → Inbound
      → Dispatching Regex Bucket
      → Result (Link Bucket × Option ℕ) × Dispatching Regex Bucket
  unfolding admit count open_link limit_writer emit
  dispatch_link p i s =
      let email = or_else "" i.email in
      if email == ""
      then (ok (record { reader = piped p.out; writer = plain p.into }, none), s)
      else (let (r, ls) = admit i.tag email i.address i.is_tcp s.limiters in
          elim r [
            | err e ↦ (
              err e,
              record {
                limiters = ls;
                dispatcher = emit (close p.into ∷ interrupt p.out ∷ []) s.dispatcher;
              },
            )
            | ok (k, b) ↦
                let (a, d) = count i.tag email s.dispatcher in
                let (w, d') = open_link email p.into (counted p.out a) d in
                (
                  ok (
                    record {
                      reader = counted p.out a;
                      writer = down_counted (limit_writer b (managed w)) a;
                    },
                    some k,
                  ),
                  record { limiters = ls; dispatcher = d' },
                )
          ])
