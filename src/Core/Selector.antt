-- ===== src/Core/Selector.antt =====
-- core/selector.go and core/core.go. The map of cores is a list of names and states in the order
-- in which a range visits it, which Go leaves open. `nodes` maps a
-- tag to the name of its core, which stands for the pointer to it. `option.UnmarshalJSON` reads
-- JSON: it is the parameter `unmarshal`. `strings.ToLower` is the parameter `to_lower`.
pub mod Routes
pub mod Delegation
use v2b_x_turbo.Base.{
  ℤ, String, Bool, true, false, not, Option, none, some, Result, ok, err, List, [], ◌∷◌, ◌++◌, Map,
  lookup, store, delete, string_eq, ◌==◌, ◌||◌, if◌then◌else◌,
}
use Prim.Native.String.{◌++◌ as text_append}
use v2b_x_turbo.Conf.Types.{Options, CoreConfig}
use v2b_x_turbo.Panel.Types.{NodeInfo, UserInfo, UserTraffic}
use v2b_x_turbo.Core.Interface.{AddUsersParams, CoreOps}

pub record Selector (C : Type 0) : Type 0 where
  pub cores : Map String C
  pub nodes : Map String String

-- What `NewCore` answers: one core, or a selector of several.
pub data Running (C : Type 0) : Type 0 where
  one : C → Running C
  several : Selector C → Running C

abbrev pub no_node : String
no_node = "the node is not have"

abbrev pub not_supported : String
not_supported = "the node type is not support"

unfoldable pub is_supported : String → List String → Bool
is_supported protocol [] = false
is_supported protocol (p ∷ ps) =
    let rest = is_supported protocol ps in if protocol == p then true else rest

abbrev raw_text : Option String → String
raw_text none = ""
raw_text (some t) = t

module _ {C : Type 0} where
  -- The loop of `NewSelector` over the constructors that the cores have registered.
  build_cores :
      (String → String)
      → Map String (CoreConfig → Result C)
      → List CoreConfig
      → Map String C
      → Result (Map String C)
  build_cores to_lower registered [] cs = ok cs
  build_cores to_lower registered (t ∷ c) cs = elim (lookup (to_lower t.kind) registered) [
    | none ↦ err (text_append "unknown core type: " t.kind)
    | some f ↦ elim (f t) [
      | err e ↦ err e
      | ok core1 ↦
          build_cores to_lower registered c
            (store (if t.name == "" then t.kind else t.name) core1 cs)
    ]
  ]

  unfoldable pub new_selector :
      (String → String) → Map String (CoreConfig → Result C) → List CoreConfig → Result (Selector C)
  unfolding build_cores
  new_selector to_lower registered c = elim (build_cores to_lower registered c []) [
    | err e ↦ err e
    | ok cs ↦ ok (record { cores = cs; nodes = [] })
  ]

  unfoldable pub new_core :
      (String → String) → Map String (CoreConfig → Result C) → List CoreConfig → Result (Running C)
  unfolding new_selector
  new_core to_lower registered [] = err "no have vail core"
  new_core to_lower registered (c ∷ []) = elim (lookup c.kind registered) [
    | none ↦ err "unknown core type"
    | some f ↦ elim (f c) [ err e ↦ err e | ok core1 ↦ ok (one core1) ]
  ]
  new_core to_lower registered (c ∷ d ∷ cs) = elim (new_selector to_lower registered (c ∷ d ∷ cs)) [
    | err e ↦ err e
    | ok s ↦ ok (several s)
  ]

module _ {C : Type 0} (ops : CoreOps C) where
  open ops use {
    start, close, add_node, del_node, add_users, get_user_traffic_slice, del_users, protocols, kind,
  }

  -- The range stops at the first core that fails.
  start_cores : Map String C → Option String × Map String C
  start_cores [] = (none, [])
  start_cores ((n, c) ∷ cs) =
      let (e, c') = start c in
      let (e', cs') = start_cores cs in
      elim e [ some x ↦ (some x, (n, c') ∷ cs) | none ↦ (e', (n, c') ∷ cs') ]

  -- The range visits every core, and collects the errors.
  close_cores : Map String C → List String × Map String C
  close_cores [] = ([], [])
  close_cores ((n, c) ∷ cs) =
      let (e, c') = close c in
      let (es, cs') = close_cores cs in (elim e [ some x ↦ x ∷ es | none ↦ es ], (n, c') ∷ cs')

  unfoldable pub start_all : Selector C → Option String × Selector C
  unfolding start_cores
  start_all s = let (e, cs) = start_cores s.cores in (e, record s { cores = cs })

  -- `errors.Join`: nil for no error; else here the list of the errors.
  unfoldable pub close_all : Selector C → List String × Selector C
  unfolding close_cores
  close_all s = let (es, cs) = close_cores s.cores in (es, record s { cores = cs })

  -- The test of one core in the range of `AddNode`.
  unfoldable pub fits : NodeInfo → Options → C → Bool
  unfolding is_supported
  fits info option c =
      if option.core == "" then is_supported info.kind (protocols c) else option.core == kind c

  -- The range goes on to the end: the last core that fits stays.
  last_fitting : NodeInfo → Options → Map String C → Option (String × C) → Option (String × C)
  last_fitting info option [] found = found
  last_fitting info option ((n, c) ∷ cs) found =
      last_fitting info option cs (if fits info option c then some (n, c) else found)

  unfoldable pub select_core : NodeInfo → Options → Selector C → Option (String × C)
  unfolding last_fitting
  select_core info option s =
      if option.core_name == ""
      then last_fitting info option s.cores none
      else (elim (lookup option.core_name s.cores) [
        | some c ↦ some (option.core_name, c)
        | none ↦ none
      ])

  -- The end of `AddNode`, with the options complete.
  unfoldable pub place_node :
      String → NodeInfo → Options → String → C → Selector C → Option String × Options × Selector C
  place_node tag info option name c s =
      let (e, c') = add_node tag info option c in
      let s' = record s { cores = store name c' s.cores } in
      elim e [
        | some x ↦ (some x, option, s')
        | none ↦ (none, option, record s' { nodes = store tag name s.nodes })
      ]

  -- `AddNode` writes to the options that its caller holds: they are returned.
  unfoldable pub add :
      (String → Options → Result Options)
      → String
      → NodeInfo
      → Options
      → Selector C
      → Option String × Options × Selector C
  add unmarshal tag info option s = elim (select_core info option s) [
    | none ↦ (some not_supported, option, s)
    | some (name, c) ↦
        if option.core == ""
        then (let named = record option { core = kind c } in
            elim (unmarshal (raw_text named.raw_options) named) [
              | err e ↦ (some (text_append "unmarshal option error: " e), named, s)
              | ok decoded ↦ place_node tag info (record decoded { raw_options = none }) name c s
            ])
        else place_node tag info option name c s
  ]

  -- The core that a tag is routed to.
  unfoldable pub routed : String → Selector C → Option (String × C)
  routed tag s = elim (lookup tag s.nodes) [
    | none ↦ none
    | some name ↦ elim (lookup name s.cores) [ none ↦ none | some c ↦ some (name, c) ]
  ]

  unfoldable pub del : String → Selector C → Option String × Selector C
  unfolding routed
  del tag s = elim (routed tag s) [
    | none ↦ (some no_node, s)
    | some (name, c) ↦
        let (e, c') = del_node tag c in
        let s' = record s { cores = store name c' s.cores } in
        elim e [ some x ↦ (some x, s') | none ↦ (none, record s' { nodes = delete tag s.nodes }) ]
  ]

  unfoldable pub add_to : AddUsersParams → Selector C → Result ℤ × Selector C
  unfolding routed
  add_to p s = elim (routed p.tag s) [
    | none ↦ (err no_node, s)
    | some (name, c) ↦
        let (r, c') = add_users p c in (r, record s { cores = store name c' s.cores })
  ]

  unfoldable pub traffic_of : String → Bool → Selector C → Result (List UserTraffic) × Selector C
  unfolding routed
  traffic_of tag reset s = elim (routed tag s) [
    | none ↦ (err no_node, s)
    | some (name, c) ↦
        let (r, c') = get_user_traffic_slice tag reset c in
        (r, record s { cores = store name c' s.cores })
  ]

  unfoldable pub del_from :
      List UserInfo → String → NodeInfo → Selector C → Option String × Selector C
  unfolding routed
  del_from users tag info s = elim (routed tag s) [
    | none ↦ (some no_node, s)
    | some (name, c) ↦
        let (e, c') = del_users users tag info c in (e, record s { cores = store name c' s.cores })
  ]

  unfoldable pub protocols_of : Map String C → List String
  protocols_of [] = []
  protocols_of ((n, c) ∷ cs) = protocols c ++ protocols_of cs

  -- The loop of `Type`; `flag` is set once a name is written.
  type_from : Bool → Map String C → String
  type_from flag [] = ")"
  type_from flag ((n, c) ∷ cs) =
      text_append (if flag then " " else "")
        (text_append (if n == "" then kind c else n) (type_from true cs))

  unfoldable pub type_of : Selector C → String
  unfolding type_from
  type_of s = text_append "Selector(" (type_from false s.cores)
