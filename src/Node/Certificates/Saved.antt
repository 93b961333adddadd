-- ===== src/Node/Certificates/Saved.antt =====
-- node/lego.go: the account that is read back from its file.
use text.Mathlib.TextEquality.{eq_iff}
use v2b_x_turbo.Base.{
  true, String, none, some, ok, string_eq, ◌==◌, ◌≡◌, refl, ap, ◌∙◌, arith, Option-cases,
  Result-cases, inl, inr,
}
use v2b_x_turbo.Node.Certificates.System.{
  call, try, label, Ends, after-Ends, after-Ends_any, labelled-Ends, at-Ends, if-Ends,
  Ends-of_return, try-Ends, System, StoredUser,
}
use v2b_x_turbo.Node.Certificates.Account.{
  User, new_user, exists, check_path, encoded, encode_private, decode_private, write_stored, save,
  load, register_user, new_lego_user,
}

-- What the encodings and a file promise: what was encoded is decoded, and a file that was opened
-- empty and written holds the text.
pub record ReadsBack {W Key Reg Client Provider Cert : Type 0}
    (sys : System W Key Reg Client Provider Cert) : Type 0 where
  pub der : Key → String
  pub marshals : (k : Key) → sys.marshal_key k ≡ ok (der k)
  pub parses : (k : Key) → sys.parse_key (der k) ≡ ok k
  pub pems : (t : String) → sys.pem_decode (sys.pem_encode t) ≡ some t
  pub decodes : (u : StoredUser Reg) (t : String) → sys.encode u ≡ ok t → sys.decode t ≡ ok u
  pub holds :
      (p t : String) (w w1 w2 : W)
      → sys.open_truncate p w ≡ (none, w1)
      → sys.write p t w1 ≡ (none, w2)
      → sys.read_file p w2 ≡ ok t

module _ {W Key Reg Client Provider Cert : Type 0} (sys : System W Key Reg Client Provider Cert)
    (back : ReadsBack sys) where
  -- Whatever happened to the rest of the world, the file loads as this user of the email.
  abbrev Reloads : String → String → User Key Reg → W → Type 0
  Reloads path email u w =
      (u.email ≡ email)
      × ((w' : W)
          → sys.read_file path w' ≡ sys.read_file path w
          → (text : String) × (load sys path w' ≡ some (ok (record u { key_encoded = text }), w')))

  -- A load reads its file and changes nothing.
  load_same :
      (path : String) (u : User Key Reg) (w w1 w' : W)
      → load sys path w ≡ some (ok u, w1)
      → sys.read_file path w' ≡ sys.read_file path w
      → (w1 ≡ w) × (load sys path w' ≡ some (ok u, w'))
  unfolding load decode_private
  load_same path u w w1 w' h same = elim (Result-cases (sys.read_file path w)) [
    | inr (m, bad) ↦ absurd (ground arith)
    | inl (text, read) ↦ elim (Result-cases (sys.decode text)) [
      | inr (m, bad) ↦ absurd (ground arith)
      | inl (stored, decoded) ↦ elim (Option-cases (sys.pem_decode stored.key_encoded)) [
        | inl nil ↦ absurd (ground arith)
        | inr (block, pem) ↦ elim (Result-cases (sys.parse_key block)) [
          | inr (m, bad) ↦ absurd (ground arith)
          | inl (key, parsed) ↦ (ground arith, ground arith)
        ]
      ]
    ]
  ]

  load-Reloads :
      (path : String) (w : W) → Ends (λ u w'. Reloads path u.email u w') (load sys path w)
  load-Reloads path w =
      Ends-of_return (λ u w'. Reloads path u.email u w') (load sys path w)
        λ u w1 h.
          let (here, again) = load_same path u w w1 w h refl in
          (
            refl,
            λ w' same. (
              u.key_encoded,
              (load_same path u w w1 w' h (same ∙ ap (sys.read_file path) here)).1,
            ),
          )

  load_lem :
      (path json block : String) (u : StoredUser Reg) (k : Key) (w : W)
      → sys.read_file path w ≡ ok json
      → sys.decode json ≡ ok u
      → sys.pem_decode u.key_encoded ≡ some block
      → sys.parse_key block ≡ ok k
      → load sys path w
        ≡ some (
          ok (record {
            email = u.email;
            registration = u.registration;
            key = some k;
            key_encoded = u.key_encoded;
          }),
          w,
        )
  unfolding load decode_private
  load_lem path json block u k w read decoded pem parsed = ground arith

  abbrev Wrote : String → StoredUser Reg → W → Unit {0} → W → Type 0
  Wrote path u w _ w' =
      (json : String) × (sys.encode u ≡ ok json) × (sys.write path json w ≡ (none, w'))

  write_stored-Wrote :
      (path : String) (u : StoredUser Reg) (w : W)
      → Ends (Wrote path u w) (write_stored sys path u w)
  unfolding write_stored
  write_stored-Wrote path u w = elim (Result-cases (sys.encode u)) [
    | inr (m, bad) ↦ rw (write_stored, bad) tt
    | inl (json, good) ↦ elim (Option-cases (sys.write path json w).0) [
      | inr (m, bad) ↦ rw (write_stored, good, bad) tt
      | inl wrote ↦ rw (write_stored, good, wrote) (json, good, ground arith)
    ]
  ]

  encoded-encode_private :
      (k : Key) → encoded sys (encode_private sys k) ≡ sys.pem_encode (back.der k)
  unfolding encode_private
  encoded-encode_private k = ground (arith, back.marshals k)

  save-Reloads :
      (path : String) (u : User Key Reg) (k : Key) (w : W)
      → Ends (Reloads path u.email) (save sys path (record u { key = some k }) w)
  unfolding save
  save-Reloads path u k w =
      let P = Reloads path u.email in
      let text = encoded sys (encode_private sys k) in
      let stored : StoredUser Reg = record {
        email = u.email;
        registration = u.registration;
        key_encoded = text;
      } in
      let pem = ap sys.pem_decode (encoded-encode_private k) ∙ back.pems (back.der k) in
      after-Ends_any P (label "check path error: " (check_path sys path) w) _ λ _ w1.
        let Opened : Unit {0} → W → Type 0 = λ _ w2. sys.open_truncate path w1 ≡ (none, w2) in
        after-Ends P Opened (try (sys.open_truncate path) w1) _
          (try-Ends Opened _ _ λ e. ground arith)
          λ _ w2 opened.
            after-Ends P (Wrote path stored w2) (write_stored sys path stored w2) _
              (write_stored-Wrote path stored w2)
              λ _ w3 (json, enc, wrote). (
                refl,
                λ w' same. (
                  text,
                  load_lem path json (back.der k) stored k w'
                      (same ∙ back.holds path json w1 w2 w3 opened wrote)
                      (back.decodes stored json enc) pem (back.parses k),
                ),
              )

  register_user-Reloads :
      (u : User Key Reg) (path : String) (w : W)
      → Ends (Reloads path u.email) (register_user sys u path w)
  unfolding register_user
  register_user-Reloads u path w =
      let P = Reloads path u.email in
      after-Ends_any P (label "generate key error: " (call sys.generate_key) w) _ λ k w1.
        after-Ends_any P
          (label "create lego client error: "
            (call (sys.new_client u.email u.registration (some k))) w1)
          _
          λ c w2. after-Ends_any P (call (sys.register c) w2) _ λ reg w3.
            let v = record u { registration = some reg } in
            labelled-Ends P "save user error: " (save sys path (record v { key = some k }) w3)
              (save-Reloads path v k w3)

  new_lego_user-Reloads :
      (path email : String) (w : W) → Ends (Reloads path email) (new_lego_user sys path email w)
  unfolding new_lego_user
  new_lego_user-Reloads path email w =
      let P = Reloads path email in
      if-Ends P (exists sys path w) _ _
        (λ _.
          after-Ends P (λ u w1. Reloads path u.email u w1) (load sys path w) _ (load-Reloads path w)
            λ u w1 reloads.
              if-Ends P (u.email == email) _ _ (λ mine. ((eq_iff u.email email).0 mine, reloads.1))
                λ other.
                  register_user-Reloads (record u { registration = none; email = email }) path w1)
        (λ _. register_user-Reloads (new_user email) path w)

  -- Where the encodings decode what they have encoded, and a file that was opened empty and written
  -- holds its text: the account that `NewLegoUser` returns is in its file. As long as the file stays
  -- as it is then, the next `NewLegoUser` for the same email loads the same email, registration and
  -- key, and neither registers nor writes anything.
  pub new_lego_user_again :
      (path email : String) (u : User Key Reg) (w w1 w2 : W)
      → new_lego_user sys path email w ≡ some (ok u, w1)
      → sys.read_file path w2 ≡ sys.read_file path w1
      → exists sys path w2 ≡ true
      → (text : String) × (new_lego_user sys path email w2
          ≡ some (ok (record u { key_encoded = text }), w2))
  unfolding new_lego_user
  new_lego_user_again path email u w w1 w2 h same there =
      let (mine, reloads) =
        at-Ends (Reloads path email) (new_lego_user sys path email w) u w1 h
          (new_lego_user-Reloads path email w) in
      let (text, loaded) = reloads w2 same in (text, ground (arith, eq_iff u.email email))
