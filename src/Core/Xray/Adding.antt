-- ===== src/Core/Xray/Adding.antt =====
-- core/xray/node.go: `AddNode` with the DNS file, the inbound and the outbound that it makes.
-- `build_in` and `build_out` are the `Build` of xray-core. The options of the core that the
-- configuration holds as a text are an argument of their own.
use v2b_x_turbo.Base.{
  String, Option, none, some, Result, ok, err, Map, Bool-cases, Option-cases, Result-cases, inl,
  inr, ◌≡◌, arith, map, string_eq, ap, sym, refl, ◌∙◌, pos, ◌*ℤ◌, int64, store,
}
use v2b_x_turbo.Conf.Types.{Options}
use v2b_x_turbo.Conf.Xray.{XrayOptions}
use v2b_x_turbo.Panel.Types.{NodeInfo, DnsRule}
use v2b_x_turbo.Core.Call.{Call, ◌>>=◌, return, Call-cases, >>=-eq-return}
use v2b_x_turbo.Core.Xray.{Instance, Xray}
use v2b_x_turbo.Core.Xray.Dns.{Server, System, update_dns_config}
use v2b_x_turbo.Core.Xray.Stream.{Library}
use v2b_x_turbo.Core.Xray.Inbound.{InboundDetour, OutboundDetour, build_detour, build_outbound}
use v2b_x_turbo.Core.Xray.Inbound.Built.{IsServed, build_detour-IsServed}
use v2b_x_turbo.Core.Xray.Nodes.{
  prefixed, add_inbound, add_outbound, finish_outbound, add_handlers, add_node,
}

-- A rule of the panel has no port.
abbrev pub servers : Map String DnsRule → Map String Server
servers m =
    map
      (λ (r : String × DnsRule).
        (r.0, record { address = r.1.address; port = none; domains = r.1.domains }))
      m

module _ {X I O H M N : Type 0} (x : Instance X I O H M N) where
  -- What the handlers of an inbound `i` and an outbound `o` do to the instance.
  pub record AreEntered (i : I) (o : O) (s s' : X) : Type 0 where
    pub inbound : H
    pub outbound : H
    pub between : X
    pub in_created : x.create_inbound i s ≡ ok (some inbound)
    pub in_added : x.add_inbound_handler inbound s ≡ (none, between)
    pub out_created : x.create_outbound o between ≡ ok (some outbound)
    pub out_added : x.add_outbound_handler outbound between ≡ (none, s')

  add_outbound-none :
      (o : O) (c c' : Xray X)
      → finish_outbound x (return o) c ≡ some (none, c')
      → (h : H) × (x.create_outbound o c.server ≡ ok (some h))
        × (x.add_outbound_handler h c.server ≡ (none, c'.server))
        × (c' ≡ record c { server = c'.server })
  unfolding finish_outbound add_outbound prefixed
  add_outbound-none o c c' e = elim (Result-cases (x.create_outbound o c.server)) [
    | inr (m, failed) ↦ absurd (ground arith)
    | inl (none, nil) ↦ absurd (ground arith)
    | inl (some h, made) ↦ elim (Bool-cases c.is_started) [
      | inr early ↦ absurd (ground arith)
      | inl started ↦ elim (Option-cases (x.add_outbound_handler h c.server).0) [
        | inr (m, failed) ↦ absurd (ground arith)
        | inl added ↦ (h, made, ground arith, ground arith)
      ]
    ]
  ]

  add_handlers-none :
      (i : I) (built_out : Call O) (c c' : Xray X)
      → add_handlers x (return i) built_out c ≡ some (none, c')
      → (o : O) × (built_out ≡ return o)
        × AreEntered i o c.server c'.server
        × (c' ≡ record c { server = c'.server })
  unfolding add_handlers add_inbound finish_outbound
  add_handlers-none i built_out c c' e = elim (Result-cases (x.create_inbound i c.server)) [
    | inr (m, failed) ↦ absurd (ground arith)
    | inl (none, nil) ↦ absurd (ground arith)
    | inl (some h, made) ↦ elim (Bool-cases c.is_started) [
      | inr early ↦ absurd (ground arith)
      | inl started ↦ elim (Option-cases (x.add_inbound_handler h c.server).0) [
        | inr (m, failed) ↦ absurd (ground arith)
        | inl added ↦
            let c1 = record c { server = (x.add_inbound_handler h c.server).1 } in
            let rest : finish_outbound x built_out c1 ≡ some (none, c') = ground arith in
            elim (Call-cases built_out) [
              | inr bad ↦ absurd (ground arith)
              | inl (o, out) ↦
                  let (g, out_created, out_added, kept) =
                    add_outbound-none o c1 c' (ap (λ b. finish_outbound x b c1) (sym out) ∙ rest) in
                  (
                    o,
                    out,
                    record {
                      inbound = h;
                      outbound = g;
                      between = c1.server;
                      in_created = made;
                      in_added = ground arith;
                      out_created = out_created;
                      out_added = out_added;
                    },
                    kept,
                  )
            ]
      ]
    ]
  ]

  add_node-none :
      (tag : String) (dns : Option String) (built_in : Call I) (built_out : Call O)
      (config : Options) (c c' : Xray X)
      → add_node x tag dns built_in built_out config c ≡ some (none, c')
      → (i : I) × (o : O) × (built_in ≡ return i)
        × (built_out ≡ return o)
        × AreEntered i o c.server c'.server
        × (c' ≡ record c {
          server = c'.server;
          node_report_min_traffic_bytes =
              store tag
                (int64 (config.report_min_traffic *ℤ pos 1024))
                c.node_report_min_traffic_bytes;
        })
  unfolding add_node add_handlers
  add_node-none tag (some m) built_in built_out config c c' h = absurd (ground arith)
  add_node-none tag none none built_out config c c' h = absurd (ground arith)
  add_node-none tag none (some (err m)) built_out config c c' h = absurd (ground arith)
  add_node-none tag none (some (ok i)) built_out config c c' h =
      let c1 = record c {
        node_report_min_traffic_bytes =
            store tag (int64 (config.report_min_traffic *ℤ pos 1024))
              c.node_report_min_traffic_bytes;
      } in
      let (o, out_made, entered, kept) = add_handlers-none i built_out c1 c' h in
      (i, o, refl, out_made, entered, kept)

-- `in.Build()` behind `buildInbound`, and the same of `buildOutbound`.
abbrev built : {A B : Type 0} → (A → Result B) → Call A → Call B
built build made = made >>= λ a. some (build a)

module _ {X I O H M N F : Type 0} (x : Instance X I O H M N) (sys : System F) (lib : Library)
    (build_in : InboundDetour → Result I) (build_out : OutboundDetour → Result O) where
  unfoldable pub add_configured_node :
      String
      → String
      → NodeInfo
      → Options
      → Option XrayOptions
      → F
      → Xray X
      → Option ((Option String × Xray X) × F)
  unfolding add_node
  add_configured_node dns_path tag info config options f c =
      let dns = info.raw_dns in
      let ((e, rules), f') = update_dns_config sys dns_path dns.dns_json (servers dns.dns_map) f in
      elim (add_node x tag e
        (built build_in
          (build_detour lib options (some config.cert_config) config.listen_ip info tag))
        (built build_out (build_outbound options config.send_ip tag)) config c) [
          | none ↦ none
          | some r ↦ some (r, f')
        ]

  -- A node of which both handlers were added to the instance without an error.
  pub record IsAdded (tag : String) (info : NodeInfo) (config : Options) (options : XrayOptions)
      (c c' : Xray X) : Type 0 where
    pub inbound : InboundDetour
    pub outbound : OutboundDetour
    pub built_inbound : I
    pub built_outbound : O
    pub served : IsServed info (some config.cert_config) options tag inbound
    pub in_built : build_in inbound ≡ ok built_inbound
    pub out_tagged : outbound.tag ≡ tag
    pub freedom : outbound.protocol ≡ "freedom"
    pub out_built : build_out outbound ≡ ok built_outbound
    pub entered : AreEntered x built_inbound built_outbound c.server c'.server
    pub rest : c' ≡ record c {
      server = c'.server;
      node_report_min_traffic_bytes =
          store tag (int64 (config.report_min_traffic *ℤ pos 1024)) c.node_report_min_traffic_bytes;
    }

  -- An `AddNode` that has options for the core and returns nil has added the handlers of an inbound
  -- and of an outbound to the instance, in this order. The outbound is freedom and carries the tag. The inbound carries the tag
  -- and the protocol of the node, and listens at one port of 32 bits. It sniffs unless the options
  -- forbid it. TLS is on exactly where the panel asks for it and a certificate is configured, REALITY
  -- where the panel asks for that, with the settings of each where it is on and only there. The
  -- settings that the network reads, those of its transport for tcp and ws and those of the socket for
  -- every other, accept the PROXY protocol as the options say. Of the core nothing else changes but
  -- the least traffic of the tag.
  pub add_configured_node-IsAdded :
      (dns_path tag : String) (info : NodeInfo) (config : Options) (options : XrayOptions)
      (f f' : F) (c c' : Xray X)
      → add_configured_node dns_path tag info config (some options) f c ≡ some ((none, c'), f')
      → IsAdded tag info config options c c'
  unfolding add_configured_node build_outbound
  add_configured_node-IsAdded dns_path tag info config options f f' c c' h =
      let made =
        build_detour lib (some options) (some config.cert_config) config.listen_ip info tag in
      let made_out = build_outbound (some options) config.send_ip tag in
      let dns = info.raw_dns in
      let e = (update_dns_config sys dns_path dns.dns_json (servers dns.dns_map) f).0.0 in
      let (i, o, in_made, out_made, entered, rest) =
        add_node-none x tag e (built build_in made) (built build_out made_out) config c c'
          (ground arith) in
      let (d, drafted, in_built) = >>=-eq-return (λ a. some (build_in a)) {last = i} made in_made in
      let (g, out_drafted, out_built) =
        >>=-eq-return (λ a. some (build_out a)) {last = o} made_out out_made in
      record {
        inbound = d;
        outbound = g;
        built_inbound = i;
        built_outbound = o;
        served =
            build_detour-IsServed lib options (some config.cert_config) config.listen_ip info tag d
              drafted;
        in_built = ground arith;
        out_tagged = ground arith;
        freedom = ground arith;
        out_built = ground arith;
        entered = entered;
        rest = rest;
      }
