-- ===== src/Core/Sing/Adding.antt =====
-- core/sing/node.go: `AddNode` with its `getInboundOptions`. Of the inbound that is made, the box takes
-- the tag, the type and the options. The options of the core that the configuration holds as a text
-- are an argument of their own.
use v2b_x_turbo.Base.{
  ℕ, ◌<◌, pos, ◌*ℤ◌, int64, String, Option, none, some, is_some, Result, ok, err, store, string_eq,
  inl, inr, if◌then◌else◌, ◌≡◌, arith,
}
use v2b_x_turbo.Conf.Types.{Options}
use v2b_x_turbo.Conf.Sing.{SingOptions}
use v2b_x_turbo.Panel.Types.{NodeInfo}
use v2b_x_turbo.Core.Selector.{is_supported}
use v2b_x_turbo.Core.Call.{Call-cases}
use v2b_x_turbo.Core.Sing.{BoxOps, Sing, add_node, account_of, protocols}
use v2b_x_turbo.Core.Sing.Transport.{Parsers}
use v2b_x_turbo.Core.Sing.Inbound.{Inbound, get_inbound_options}
use v2b_x_turbo.Core.Sing.Inbound.Agreement.{AreSecured, get_inbound_options-AreSecured}

-- The type, and what the options are made of.
abbrev typed : {Addr : Type 0} → Result (Inbound Addr) → Result (String × Inbound Addr)
typed (err m) = err m
typed (ok i) = ok (i.kind, i)

module _ {B Addr : Type 0} (box : BoxOps B (Inbound Addr)) (p : Parsers Addr) (random : ℕ → String)
    (base64 : String → String) where
  unfoldable pub add_configured_node :
      String → NodeInfo → Options → Option SingOptions → Sing B → Option (Option String × Sing B)
  unfolding add_node
  add_configured_node tag info config options s =
      elim (get_inbound_options p random base64 tag info config.listen_ip (some config.cert_config)
        options) [ none ↦ none | some made ↦ some (add_node box tag (typed made) config s) ]

  -- A node for which `Create` of the box was called without an error, with this inbound.
  pub record IsCreated (tag : String) (info : NodeInfo) (config : Options) (s s' : Sing B)
      (i : Inbound Addr) : Type 0 where
    pub tagged : i.tag ≡ tag
    pub kind : i.kind ≡ (if is_supported info.kind protocols then info.kind else "")
    pub filled : is_some i.options ≡ is_supported info.kind protocols
    pub peopled : is_some (account_of base64 info) ≡ is_supported info.kind protocols
    pub port : i.listen.listen_port < 65536
    pub secured : AreSecured info (some config.cert_config) i.options
    pub created : box.create tag i.kind i s.box ≡ (none, s'.box)
    pub rest : s' ≡ record s {
      box = s'.box;
      node_report_min_traffic_bytes =
          store tag (int64 (config.report_min_traffic *ℤ pos 1024)) s.node_report_min_traffic_bytes;
    }

  -- An `AddNode` that returns nil has made `Create` of the box succeed with an inbound that carries
  -- the tag. Its type is the node's where the core supports that type, and then it has options and
  -- `AddUsers` has users for it; for every other type it is empty, without options, and `AddUsers`
  -- adds nobody to it. Its port fits 16 bits. But for Shadowsocks, which has no TLS, its TLS is on
  -- exactly where the panel asks for TLS and a certificate is configured, with that certificate's
  -- file, or for REALITY, with the settings of it. Of the core nothing else changes but the least
  -- traffic of the tag.
  pub add_configured_node-IsCreated :
      (tag : String) (info : NodeInfo) (config : Options) (options : Option SingOptions)
      (s s' : Sing B)
      → add_configured_node tag info config options s ≡ some (none, s')
      → (i : Inbound Addr) × IsCreated tag info config s s' i
  unfolding add_configured_node add_node
  add_configured_node-IsCreated tag info config options s s' h =
      elim (Call-cases (
        get_inbound_options p random base64 tag info config.listen_ip (some config.cert_config)
          options)) [
            | inr bad ↦ absurd (ground arith)
            | inl (i, made) ↦
                let (tagged, kind, filled, peopled, port, secured) =
                  get_inbound_options-AreSecured p random base64 tag info config.listen_ip
                    (some config.cert_config) options i made in
                (
                  i,
                  record {
                    tagged = tagged;
                    kind = kind;
                    filled = filled;
                    peopled = peopled;
                    port = port;
                    secured = secured;
                    created = ground arith;
                    rest = ground arith;
                  },
                )
          ]
