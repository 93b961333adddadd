-- ===== src/Core/Selector/Delegation.antt =====
-- What `AddNode` of the selector leaves, and the calls for a tag that no core serves.
use v2b_x_turbo.Base.{
  List, Bool, ◌∙◌, ap, Result-cases, String, none, some, Result, ok, err, lookup, lookup-store,
  lookup-store_self, string_eq, ◌==◌, if◌then◌else◌, inl, inr, ◌⊎◌, ◌≡◌, ◌≢◌, refl, arith,
  Option-cases,
}
use v2b_x_turbo.Core.Selector.{no_node}
use v2b_x_turbo.Core.Selector.{del_from}
use v2b_x_turbo.Core.Selector.{traffic_of}
use v2b_x_turbo.Core.Selector.{add_to}
use v2b_x_turbo.Core.Selector.{del}
use text.Mathlib.TextEquality.{eq_iff}
use Prim.Native.String.{◌++◌ as text_append}
use v2b_x_turbo.Conf.Types.{Options}
use v2b_x_turbo.Panel.Types.{NodeInfo, UserInfo}
use v2b_x_turbo.Core.Interface.{CoreOps}
use v2b_x_turbo.Core.Selector.{
  Selector, not_supported, raw_text, select_core, place_node, add, routed,
}

module _ {C : Type 0} (ops : CoreOps C) (unmarshal : String → Options → Result Options) where
  -- The options that the core is given: decoded again where the node did not name a core's type.
  abbrev forget_raw : Result Options → Result Options
  forget_raw (err e) = err e
  forget_raw (ok o) = ok (record o { raw_options = none })

  unfoldable pub completed : Options → C → Result Options
  completed option c =
      if option.core == ""
      then forget_raw
          (unmarshal (raw_text option.raw_options) (record option { core = ops.kind c }))
      else ok option

  -- A node is placed: the core that was selected took it with the completed options, the tag is
  -- routed to that core, and no other tag's route changed.
  pub record Placed (tag : String) (info : NodeInfo) (option : Options) (s : Selector C)
      : Type 0 where
    pub name : String
    pub core : C
    pub given : Options
    pub selected : select_core ops info option s ≡ some (name, core)
    pub complete : completed option core ≡ ok given
    pub taken : (ops.add_node tag info given core).0 ≡ none
    pub options : (add ops unmarshal tag info option s).1 ≡ given
    pub routes :
        routed ops tag (add ops unmarshal tag info option s).2
        ≡ some (name, (ops.add_node tag info given core).1)
    pub others :
        (other : String)
        → tag ≢ other
        → lookup other (add ops unmarshal tag info option s).2.nodes ≡ lookup other s.nodes

  place_node_lem :
      (tag : String) (info : NodeInfo) (option : Options) (name : String) (c : C) (s : Selector C)
      → let r = place_node ops tag info option name c s in
        (r.0 ≡ (ops.add_node tag info option c).0)
        × (r.1 ≡ option)
        × (r.0 ≢ none → r.2.nodes ≡ s.nodes)
        × (r.0 ≡ none → routed ops tag r.2 ≡ some (name, (ops.add_node tag info option c).1))
        × ((other : String) → tag ≢ other → lookup other r.2.nodes ≡ lookup other s.nodes)
  unfolding place_node routed
  place_node_lem tag info option name c s = (
    ground arith,
    ground arith,
    λ h. ground arith,
    λ h. ground (
      arith,
      lookup-store_self tag name s.nodes,
      lookup-store_self name (ops.add_node tag info option c).1 s.cores,
    ),
    λ other h. ground (arith, lookup-store tag other name s.nodes, eq_iff tag other),
  )

  add_known :
      (tag : String) (info : NodeInfo) (option : Options) (s : Selector C) (name : String) (c : C)
      (given : Options)
      → select_core ops info option s ≡ some (name, c)
      → completed option c ≡ ok given
      → add ops unmarshal tag info option s ≡ place_node ops tag info given name c s
  unfolding add completed
  add_known tag info option s name c given h k = ground arith

  add_incomplete :
      (tag : String) (info : NodeInfo) (option : Options) (s : Selector C) (name : String) (c : C)
      (e : String)
      → select_core ops info option s ≡ some (name, c)
      → completed option c ≡ err e
      → ((add ops unmarshal tag info option s).0 ≡ some (text_append "unmarshal option error: " e))
        × ((add ops unmarshal tag info option s).2 ≡ s)
  unfolding add completed
  add_incomplete tag info option s name c e h k = ground arith

  add-none :
      (tag : String) (info : NodeInfo) (option : Options) (s : Selector C)
      → select_core ops info option s ≡ none
      → add ops unmarshal tag info option s ≡ (some not_supported, option, s)
  unfolding add
  add-none tag info option s h = ground arith

  -- `AddNode` either answers nil and the node is placed, or it answers an error and every route
  -- stays as it was.
  pub add-Placed :
      (tag : String) (info : NodeInfo) (option : Options) (s : Selector C)
      → let r = add ops unmarshal tag info option s in
        (r.0 ≡ none) × Placed tag info option s ⊎ (r.0 ≢ none) × (r.2.nodes ≡ s.nodes)
  add-Placed tag info option s = elim (Option-cases (select_core ops info option s)) [
    | inl h ↦ let e = add-none tag info option s h in inr (rw e (λ p. cc), rw e refl)
    | inr ((name, c), h) ↦ elim (Result-cases (completed option c)) [
      | inr (x, k) ↦
          let e = add_incomplete tag info option s name c x h k in
          inr (rw e.0 (λ p. cc), ap (λ t. t.nodes) e.1)
      | inl (given, k) ↦
          let e = add_known tag info option s name c given h k in
          let placed = place_node_lem tag info given name c s in
          elim (Option-cases (ops.add_node tag info given c).0) [
            | inr (x, f) ↦
                inr (rw (e, placed.0, f) (λ p. cc), rw e (placed.2 (rw (placed.0, f) (λ p. cc))))
            | inl f ↦ inl (
              rw (e, placed.0) f,
              record {
                name = name;
                core = c;
                given = given;
                selected = h;
                complete = k;
                taken = f;
                options = rw e placed.1;
                routes = rw e (placed.3 (placed.0 ∙ f));
                others = λ other ne. rw e (placed.4 other ne);
              },
            )
          ]
    ]
  ]

module _ {C : Type 0} (ops : CoreOps C) (tag : String) (s : Selector C) where
  -- A tag that no core serves: every method answers the error and changes nothing.
  pub unrouted :
      routed ops tag s ≡ none
      → (reset : Bool) (users : List UserInfo) (info : NodeInfo)
      → (del ops tag s ≡ (some no_node, s))
        × (add_to ops (record { tag = tag; users = users; node_info = info }) s ≡ (err no_node, s))
        × (traffic_of ops tag reset s ≡ (err no_node, s))
        × (del_from ops users tag info s ≡ (some no_node, s))
  unfolding del add_to traffic_of del_from
  unrouted h reset users info = (ground arith, ground arith, ground arith, ground arith)
