-- ===== src/Core/Hy2/Quic.antt =====
-- core/hy2/config.go: the settings of QUIC, and the bandwidths. Windows are in bytes and durations in
-- nanoseconds.
pub mod Bounds
use v2b_x_turbo.Base.{
  ℕ, ◌≤◌, ℤ, pos, ◌*ℤ◌, quot, int64, residue64, String, Bool, false, Result, ok, err, lt_ℤ, ltb,
  nat_eq, int_eq, ◌==◌, ◌>>=◌, if◌then◌else◌, ◌≡◌, ◌≤ℤ◌, refl, arith, Bool-cases, inl, inr, ◌||◌,
  ◌⊎◌,
}
use v2b_x_turbo.Panel.Types.{Hysteria2Node}
use v2b_x_turbo.Core.Hy2.ServerConfig.{ServerConfigQuic}

-- The settings of hysteria's server that the code fills; the others stay 0.
pub record QuicConfig : Type 0 where
  pub initial_stream_receive_window : ℕ
  pub max_stream_receive_window : ℕ
  pub initial_connection_receive_window : ℕ
  pub max_connection_receive_window : ℕ
  pub max_idle_timeout : ℤ
  pub max_incoming_streams : ℤ
  pub disable_path_mtu_discovery : Bool

abbrev pub default_stream_receive_window : ℕ
default_stream_receive_window = 8388608

abbrev pub default_conn_receive_window : ℕ
default_conn_receive_window = 20971520

abbrev pub default_max_idle_timeout : ℤ
default_max_idle_timeout = pos 30000000000

abbrev pub default_max_incoming_streams : ℤ
default_max_incoming_streams = pos 4096

abbrev pub megabyte : ℤ
megabyte = pos 1000000

-- One of the checks of a window: its default in place of 0, and an error below 16384.
unfoldable pub window : String → ℕ → ℕ → Result ℕ
window message default configured =
    if configured == 0
    then ok default
    else if ltb configured 16384
    then err message
    else ok configured

unfoldable pub idle_timeout : ℤ → Result ℤ
idle_timeout configured =
    if configured == pos 0
    then ok default_max_idle_timeout
    else if lt_ℤ configured (pos 4000000000) || lt_ℤ (pos 120000000000) configured
    then err "QUICConfig.MaxIdleTimeoutf must be between 4s and 120s"
    else ok configured

unfoldable pub incoming_streams : ℤ → Result ℤ
incoming_streams configured =
    if configured == pos 0
    then ok default_max_incoming_streams
    else if lt_ℤ configured (pos 8)
    then err "QUICConfig.MaxIncomingStreamsf must be at least 8"
    else ok configured

-- The first of the checks stores no window: in place of `InitialStreamReceiveWindow` it assigns the
-- connection's, which the third check assigns again.
unfoldable pub get_quic_config : ServerConfigQuic → Result QuicConfig
unfolding window idle_timeout incoming_streams
get_quic_config c = do
  checked ←
      window "QUICConfig.InitialStreamReceiveWindowf must be at least 16384"
        default_stream_receive_window c.init_stream_receive_window
  stream ←
      window "QUICConfig.MaxStreamReceiveWindowf must be at least 16384"
        default_stream_receive_window c.max_stream_receive_window
  connection ←
      window "QUICConfig.InitialConnectionReceiveWindowf must be at least 16384"
        default_conn_receive_window c.init_connection_receive_window
  max_connection ←
      window "QUICConfig.MaxConnectionReceiveWindowf must be at least 16384"
        default_conn_receive_window c.max_connection_receive_window
  idle ← idle_timeout c.max_idle_timeout
  streams ← incoming_streams c.max_incoming_streams
  ok (record {
    initial_stream_receive_window =
        if c.init_stream_receive_window == 0 then default_stream_receive_window else 0;
    max_stream_receive_window = stream;
    initial_connection_receive_window = connection;
    max_connection_receive_window = max_connection;
    max_idle_timeout = idle;
    max_incoming_streams = streams;
    disable_path_mtu_discovery = false;
  })

pub record BandwidthConfig : Type 0 where
  pub max_tx : ℕ
  pub max_rx : ℕ

-- `(uint64)(mbps * Megabyte / 8)`, for an `int` of 64 bits; 0 stays 0.
unfoldable pub bytes_per_second : ℤ → ℕ
bytes_per_second mbps = if mbps == pos 0 then 0 else residue64 (quot (int64 (mbps *ℤ megabyte)) 8)

unfoldable pub get_bandwidth_config : Hysteria2Node → BandwidthConfig
unfolding bytes_per_second
get_bandwidth_config n = record {
  max_tx = bytes_per_second n.up_mbps;
  max_rx = bytes_per_second n.down_mbps;
}
