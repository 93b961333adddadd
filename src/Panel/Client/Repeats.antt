-- ===== src/Panel/Client/Repeats.antt =====
-- An answer of the panel that comes twice.
use v2b_x_turbo.Base.{
  inr, inl, String, none, some, ok, nat_eq, string_eq, ◌==◌, ◌≡◌, ◌≢◌, refl, arith, Bool-cases,
  Option-cases, Result-cases, sym, ap, ◌∙◌,
}
use text.Mathlib.TextEquality.{eq_iff}
use v2b_x_turbo.Panel.Config.{Decoder, parse_params}
use v2b_x_turbo.Panel.Client.{Client, Response, check_response, get_node_info}

module _ (assemble hash : String → String) (d : Decoder) where
  unchanged :
      (c : Client) (r : Response)
      → hash r.body ≡ c.response_body_hash
      → get_node_info assemble hash d c r ≡ (some (ok none), c)
  unfolding get_node_info
  unchanged c r h = ground (arith, eq_iff (hash r.body) c.response_body_hash)

  -- The client keeps the hash of the last body, of an error's as well.
  hash-get_node_info :
      (c : Client) (r : Response)
      → r.status ≢ 304
      → (get_node_info assemble hash d c r).1.response_body_hash ≡ hash r.body
  unfolding get_node_info
  hash-get_node_info c r s = elim (Bool-cases (r.status == 304)) [
    | inl e ↦ absurd (ground arith)
    | inr e ↦ elim (Bool-cases (hash r.body == c.response_body_hash)) [
      | inl same ↦ rw (e, same) (sym ((eq_iff (hash r.body) c.response_body_hash).0 same))
      | inr new ↦
          let c' = record c { response_body_hash = hash r.body; node_etag = r.etag } in
          rw (e, new)
            elim (Option-cases (check_response assemble c' r "/api/v1/server/UniProxy/config")) [
              | inr (m, bad) ↦ rw bad refl
              | inl good ↦ rw good elim (Option-cases (parse_params d c.node_type r.body)) [
                | inl unread ↦ rw unread refl
                | inr (p, read) ↦ rw read elim (Result-cases p) [
                  | inl (m, bad) ↦ rw bad refl
                  | inr (x, fine) ↦ rw fine refl
                ]
              ]
            ]
    ]
  ]

  -- Whatever the first answer is but a 304, an error included, `GetNodeInfo` returns no node and no error for
  -- any answer with the same body behind it, and the client stays as it is.
  pub get_node_info_again :
      (c : Client) (r r' : Response)
      → r.status ≢ 304
      → r'.body ≡ r.body
      → let c' = (get_node_info assemble hash d c r).1 in
        get_node_info assemble hash d c' r' ≡ (some (ok none), c')
  get_node_info_again c r r' s same = unchanged _ r' (ap hash same ∙ sym (hash-get_node_info c r s))
