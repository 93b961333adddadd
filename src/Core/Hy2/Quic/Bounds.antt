-- ===== src/Core/Hy2/Quic/Bounds.antt =====
-- core/hy2/config.go: which settings of QUIC are accepted, and what becomes of them.
use v2b_x_turbo.Base.{
  ℕ, ◌≤◌, ℤ, pos, String, Result, ok, err, lt_ℤ, ltb, nat_eq, int_eq, ◌==◌, ◌>>=◌, if◌then◌else◌,
  ◌≡◌, ◌≤ℤ◌, refl, arith, Bool-cases, inl, inr, ◌||◌, ◌⊎◌,
}
use v2b_x_turbo.Core.Hy2.ServerConfig.{ServerConfigQuic}
use v2b_x_turbo.Core.Hy2.Quic.{
  QuicConfig, window, idle_timeout, incoming_streams, get_quic_config,
  default_stream_receive_window, default_conn_receive_window, default_max_idle_timeout,
  default_max_incoming_streams,
}

-- A setting is 0, for its default, or in its range.
abbrev pub IsWindow : ℕ → Type 0
IsWindow n = (n ≡ 0) ⊎ (16384 ≤ n)

abbrev pub IsIdleTimeout : ℤ → Type 0
IsIdleTimeout t = (t ≡ pos 0) ⊎ ((pos 4000000000 ≤ℤ t) × (t ≤ℤ pos 120000000000))

abbrev pub IsStreams : ℤ → Type 0
IsStreams n = (n ≡ pos 0) ⊎ (pos 8 ≤ℤ n)

pub record IsConfigured (c : ServerConfigQuic) : Type 0 where
  pub stream : IsWindow c.init_stream_receive_window
  pub max_stream : IsWindow c.max_stream_receive_window
  pub connection : IsWindow c.init_connection_receive_window
  pub max_connection : IsWindow c.max_connection_receive_window
  pub idle : IsIdleTimeout c.max_idle_timeout
  pub streams : IsStreams c.max_incoming_streams

-- A setting, or its default in place of 0.
abbrev pub or_window : ℕ → ℕ → ℕ
or_window default n = if n == 0 then default else n

abbrev pub or_number : ℤ → ℤ → ℤ
or_number default n = if n == pos 0 then default else n

-- What an accepted setting becomes: it, or its default, in its range.
abbrev pub IsFilled : ℕ → ℕ → ℕ → ℕ → Type 0
IsFilled least default n w = (w ≡ or_window default n) × (least ≤ w)

abbrev pub IsTimeout : ℤ → ℤ → Type 0
IsTimeout t d =
    (d ≡ or_number default_max_idle_timeout t) × (pos 4000000000 ≤ℤ d) × (d ≤ℤ pos 120000000000)

abbrev pub IsNumber : ℤ → ℤ → Type 0
IsNumber n k = (k ≡ or_number default_max_incoming_streams n) × (pos 8 ≤ℤ k)

pub record IsBounded (c : ServerConfigQuic) (q : QuicConfig) : Type 0 where
  pub max_stream :
      IsFilled 16384 default_stream_receive_window c.max_stream_receive_window
        q.max_stream_receive_window
  pub connection :
      IsFilled 16384 default_conn_receive_window c.init_connection_receive_window
        q.initial_connection_receive_window
  pub max_connection :
      IsFilled 16384 default_conn_receive_window c.max_connection_receive_window
        q.max_connection_receive_window
  pub idle : IsTimeout c.max_idle_timeout q.max_idle_timeout
  pub streams : IsNumber c.max_incoming_streams q.max_incoming_streams
  pub stream_lost :
      q.initial_stream_receive_window
      ≡ (if c.init_stream_receive_window == 0 then default_stream_receive_window else 0)

-- A check accepts exactly what it should, and what it returns is then good.
abbrev Checks : {A : Type 0} → Type 0 → (A → Type 0) → Result A → Type 0
Checks {A} Accepted Good r =
    ((a : A) × (r ≡ ok a) × Accepted × Good a) ⊎ ((m : String) × (r ≡ err m) × ¬ Accepted)

-- The check of two parts in a row.
>>=-Checks :
    {A B : Type 0} (P Q : Type 0) (G : A → Type 0) (H : B → Type 0) (r : Result A)
    (f : A → Result B)
    → Checks P G r
    → ((a : A) → G a → Checks Q H (f a))
    → Checks (P × Q) H (r >>= f)
>>=-Checks P Q G H r f (inr (m, e, bad)) k = inr (m, rw e refl, λ pq. bad pq.0)
>>=-Checks P Q G H r f (inl (a, e, p, g)) k = elim (k a g) [
  | inl (b, e', q, h) ↦ inl (b, rw e e', (p, q), h)
  | inr (m, e', bad) ↦ inr (m, rw e e', λ pq. bad pq.1)
]

window_lem :
    (message : String) (default n : ℕ)
    → 16384 ≤ default
    → Checks (IsWindow n) (IsFilled 16384 default n) (window message default n)
unfolding window
window_lem message default n h = elim (Bool-cases (n == 0)) [
  | inl zero_ ↦ inl (default, ground arith, inl (ground arith), (ground arith, h))
  | inr set ↦ elim (Bool-cases (ltb n 16384)) [
    | inl small ↦
        inr (message, ground arith, λ w. elim w [ inl a ↦ ground arith | inr b ↦ ground arith ])
    | inr large ↦ inl (n, ground arith, inr (ground arith), (ground arith, ground arith))
  ]
]

idle_timeout_lem : (t : ℤ) → Checks (IsIdleTimeout t) (IsTimeout t) (idle_timeout t)
unfolding idle_timeout
idle_timeout_lem t = elim (Bool-cases (t == pos 0)) [
  | inl zero_ ↦ inl (
    default_max_idle_timeout,
    ground arith,
    inl (ground arith),
    (ground arith, omega arith, omega arith),
  )
  | inr set ↦ elim (Bool-cases (lt_ℤ t (pos 4000000000) || lt_ℤ (pos 120000000000) t)) [
    | inl out ↦ inr (
      "QUICConfig.MaxIdleTimeoutf must be between 4s and 120s",
      rw (set, out),
      λ w. elim w [ inl a ↦ ground arith | inr b ↦ ground arith ],
    )
    | inr inside ↦
        inl (t, rw (set, inside), inr (ground arith), (ground arith, ground arith, ground arith))
  ]
]

incoming_streams_lem : (n : ℤ) → Checks (IsStreams n) (IsNumber n) (incoming_streams n)
unfolding incoming_streams
incoming_streams_lem n = elim (Bool-cases (n == pos 0)) [
  | inl zero_ ↦
      inl (
        default_max_incoming_streams,
        ground arith,
        inl (ground arith),
        (ground arith, omega arith),
      )
  | inr set ↦ elim (Bool-cases (lt_ℤ n (pos 8))) [
    | inl small ↦ inr (
      "QUICConfig.MaxIncomingStreamsf must be at least 8",
      rw (set, small),
      λ w. elim w [ inl a ↦ ground arith | inr b ↦ ground arith ],
    )
    | inr large ↦ inl (n, rw (set, large), inr (ground arith), (ground arith, ground arith))
  ]
]

get_quic_config-Checks :
    (c : ServerConfigQuic)
    → Checks
        (IsWindow c.init_stream_receive_window
          × (IsWindow c.max_stream_receive_window
              × (IsWindow c.init_connection_receive_window
                  × (IsWindow c.max_connection_receive_window
                      × (IsIdleTimeout c.max_idle_timeout
                          × (IsStreams c.max_incoming_streams × Unit {0}))))))
        (IsBounded c)
        (get_quic_config c)
unfolding get_quic_config
get_quic_config-Checks c =
    >>=-Checks _ _ (IsFilled 16384 default_stream_receive_window c.init_stream_receive_window)
      (IsBounded c) _ _ (window_lem _ _ _ (omega arith))
      λ w1 b1.
        >>=-Checks _ _ (IsFilled 16384 default_stream_receive_window c.max_stream_receive_window)
          (IsBounded c) _ _ (window_lem _ _ _ (omega arith))
          λ w2 b2.
            >>=-Checks _ _
              (IsFilled 16384 default_conn_receive_window c.init_connection_receive_window)
              (IsBounded c) _ _ (window_lem _ _ _ (omega arith))
              λ w3 b3.
                >>=-Checks _ _
                  (IsFilled 16384 default_conn_receive_window c.max_connection_receive_window)
                  (IsBounded c) _ _ (window_lem _ _ _ (omega arith))
                  λ w4 b4.
                    >>=-Checks _ _ _ (IsBounded c) _ _ (idle_timeout_lem c.max_idle_timeout)
                      λ w5 b5.
                        >>=-Checks _ _ _ (IsBounded c) _ _
                          (incoming_streams_lem c.max_incoming_streams)
                          λ w6 b6. inl (
                            _,
                            refl,
                            tt,
                            record {
                              max_stream = b2;
                              connection = b3;
                              max_connection = b4;
                              idle = b5;
                              streams = b6;
                              stream_lost = refl;
                            },
                          )

-- The settings of QUIC are accepted exactly when each is 0 or in its range: a window of at least
-- 16384, an idle timeout between 4 and 120 seconds, and at least 8 streams. The accepted settings
-- are then the configured ones, with the defaults in place of 0, and in these ranges, but for the
-- initial window of a stream: that is the default where none is configured, and 0 whatever else is
-- configured.
pub get_quic_config-IsBounded :
    (c : ServerConfigQuic)
    → ((q : QuicConfig) × (get_quic_config c ≡ ok q) × IsConfigured c × IsBounded c q)
      ⊎ ((m : String) × (get_quic_config c ≡ err m) × ¬ IsConfigured c)
get_quic_config-IsBounded c = elim (get_quic_config-Checks c) [
  | inl (q, e, (a, (b, (d, (f, (g, (h, _)))))), good) ↦ inl (
    q,
    e,
    record {
      stream = a;
      max_stream = b;
      connection = d;
      max_connection = f;
      idle = g;
      streams = h;
    },
    good,
  )
  | inr (m, e, bad) ↦ inr (
    m,
    e,
    λ v.
        bad
          (v.stream, (v.max_stream, (v.connection, (v.max_connection, (v.idle, (v.streams, tt)))))),
  )
]
