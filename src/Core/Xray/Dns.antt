-- ===== src/Core/Xray/Dns.antt =====
-- core/xray/dns.go: the file of the DNS of xray-core. A file system is a state `F`, with the calls
-- that the code makes of it. What `encoding/json` and xray-core make of a text are parameters. The
-- values of the map of DNS rules are maps, which the code shares and writes: they stand as records.
use v2b_x_turbo.Base.{
  ℕ, leb, String, Bool, true, false, not, Option, none, some, Result, ok, err, List, [], ◌∷◌, Map,
  split_host_port, has_char, atoi, is_int, pos_part, string_eq, ◌==◌, ◌&&◌, if◌then◌else◌, ◌≡◌,
  arith, has_prefix,
}
use Prim.Native.String.{◌++◌}

pub record Server : Type 0 where
  pub address : String
  pub port : Option ℕ
  pub domains : List String

pub record DnsConfig : Type 0 where
  pub servers : List String
  pub rules : List Server
  pub tag : String

-- `unmarshal` and `build` give the error of `json.Unmarshal` into the DNS of xray-core, and of `Build`
-- behind it. `marshal` is `json.MarshalIndent`, `indent` is `json.Indent`.
pub record System (F : Type 0) : Type 0 where
  pub read_file : String → F → Result String
  pub truncate : String → F → Option String × F
  pub write_file : String → String → F → Option String × F
  pub unmarshal : String → Option String
  pub build : String → Option String
  pub indent : String → Result String
  pub marshal : DnsConfig → Result String

-- `strconv.ParseUint(port, 10, 16)`, 0 in place of an error.
unfoldable pub parse_port : String → ℕ
parse_port port =
    if is_int port
      && not (has_prefix port "-")
      && not (has_prefix port "+")
      && leb (pos_part (atoi port)) 65535
    then pos_part (atoi port)
    else 0

-- The loop over the rules: the servers that were added, the map as it is then, and an error.
unfoldable pub each_rule : Map String Server → (List Server × Map String Server) × Option String
each_rule [] = (([], []), none)
each_rule ((k, v) ∷ m) =
    let rest = each_rule m in
    let keep : Server → (List Server × Map String Server) × Option String =
      λ v'. ((v' ∷ rest.0.0, (k, v') ∷ rest.0.1), rest.1) in
    if has_char 58 v.address && not (has_char 47 v.address)
    then elim (split_host_port v.address) [
      | none ↦ (([], (k, v) ∷ m), some ("address " ++ v.address ++ ": no host and port"))
      | some (host, port) ↦ keep (record v { address = host; port = some (parse_port port) })
    ]
    else keep v

abbrev pub is_empty : Map String Server → Bool
is_empty [] = true
is_empty (r ∷ rs) = false

module _ {F : Type 0} (sys : System F) where
  -- The error of `Unmarshal` is kept to the end; those of the truncation and of the write are put into
  -- a variable of the inner block.
  unfoldable pub save_dns_config : String → String → F → Option String × F
  save_dns_config dns dns_path f = elim (sys.read_file dns_path f) [
    | err m ↦ (some m, f)
    | ok current ↦ if current == dns then (none, f) else elim (sys.build dns) [
      | some m ↦ (some m, f)
      | none ↦
          let (e, f') = sys.truncate dns_path f in
          let (e', f'') = sys.write_file dns_path dns f' in (sys.unmarshal dns, f'')
    ]
  ]

  -- The branch of the map assigns the error of the save to a variable of its own block.
  unfoldable pub update_dns_config :
      String → String → Map String Server → F → (Option String × Map String Server) × F
  update_dns_config dns_path dns_json dns_map f =
      if not (dns_json == "")
      then elim (sys.indent dns_json) [
        | err m ↦ ((some m, dns_map), f)
        | ok pretty ↦ let (e, f') = save_dns_config pretty dns_path f in ((e, dns_map), f')
      ]
      else elim dns_map [
        | [] ↦ ((none, []), f)
        | r ∷ rs ↦
            let ((servers, dns_map'), e) = each_rule (r ∷ rs) in
            elim e [
              | some m ↦ ((some m, dns_map'), f)
              | none ↦
                  elim (sys.marshal (record {
                    servers = "1.1.1.1" ∷ "localhost" ∷ [];
                    rules = servers;
                    tag = "dns_inbound";
                  })) [
                    | err m ↦ ((some m, dns_map'), f)
                    | ok text ↦
                        let (e, f') = save_dns_config text dns_path f in ((none, dns_map'), f')
                  ]
            ]
      ]

  -- The text that an update is to save, and the map of rules behind it: the JSON of the panel with
  -- its indentation, or else the rules of the map, where there are some and all have sound addresses.
  data Sends (json : String) (m m' : Map String Server) (text : String) : Type 0 where
    json_text : (json == "") ≡ false → sys.indent json ≡ ok text → m' ≡ m → Sends json m m' text
    rules_text :
        (servers : List Server)
        → (json == "") ≡ true
        → each_rule m ≡ ((servers, m'), none)
        → is_empty m ≡ false
        → sys.marshal (record {
          servers = "1.1.1.1" ∷ "localhost" ∷ [];
          rules = servers;
          tag = "dns_inbound";
        })
          ≡ ok text
        → Sends json m m' text

  -- An update that has a text to save leaves the file system as the save of that text does. It reports
  -- the error of the save where the panel sends JSON, and none where it sends a map of rules: also
  -- where the file cannot be read or xray-core refuses the rules.
  update_dns_config-silent :
      (dns_path json text : String) (m m' : Map String Server) (f : F)
      → Sends json m m' text
      → update_dns_config dns_path json m f ≡ (
        (if json == "" then none else (save_dns_config text dns_path f).0, m'),
        (save_dns_config text dns_path f).1,
      )
  unfolding update_dns_config
  update_dns_config-silent path json text m m' f (json_text given indented same) =
      ground (arith, same)
  update_dns_config-silent path json text [] m' f (rules_text servers unset each some_ marshalled) =
      absurd (ground arith)
  update_dns_config-silent path json text (r ∷ rs) m' f (rules_text servers unset each some_ m) =
      ground (arith)
