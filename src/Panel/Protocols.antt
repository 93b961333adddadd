-- ===== src/Panel/Protocols.antt =====
-- api/panel/node.go: the pointers `VAllss`, `Shadowsocks`, … of a `NodeInfo`; `none` is nil.
use v2b_x_turbo.Base.{Option, none, some}
use v2b_x_turbo.Panel.Types.{
  Protocol, VallssNode, vallss, ShadowsocksNode, shadowsocks, TrojanNode, trojan, TuicNode, tuic,
  AnyTlsNode, any_tls, HysteriaNode, hysteria, Hysteria2Node, hysteria2,
}

unfoldable pub vallss_of : Protocol → Option VallssNode
vallss_of (vallss n) = some n
vallss_of _ = none

unfoldable pub shadowsocks_of : Protocol → Option ShadowsocksNode
shadowsocks_of (shadowsocks n) = some n
shadowsocks_of _ = none

unfoldable pub trojan_of : Protocol → Option TrojanNode
trojan_of (trojan n) = some n
trojan_of _ = none

unfoldable pub tuic_of : Protocol → Option TuicNode
tuic_of (tuic n) = some n
tuic_of _ = none

unfoldable pub any_tls_of : Protocol → Option AnyTlsNode
any_tls_of (any_tls n) = some n
any_tls_of _ = none

unfoldable pub hysteria_of : Protocol → Option HysteriaNode
hysteria_of (hysteria n) = some n
hysteria_of _ = none

unfoldable pub hysteria2_of : Protocol → Option Hysteria2Node
hysteria2_of (hysteria2 n) = some n
hysteria2_of _ = none
