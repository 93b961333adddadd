-- ===== src/Node/Certificates/System.antt =====
-- What node/cert.go and node/lego.go call: files, keys, certificates and the client of lego, over a
-- state `W` of the world. A method changes that state, returns an error or panics, which is `none`.
use v2b_x_turbo.Base.{
  Bool, true, false, String, Option, none, some, Result, ok, err, List, ◌≡◌, refl, subst,
  if◌then◌else◌,
}
use Prim.Native.String.{◌++◌}

abbrev pub Run : Type 0 → Type 0 → Type 0
Run W A = W → Option (Result A × W)

abbrev pub after : {W A B : Type 0} → Option (Result A × W) → (A → Run W B) → Option (Result B × W)
after none f = none
after (some (err e, w)) f = some (err e, w)
after (some (ok a, w)) f = f a w

infixl 5 ◌>>=◌ ◌>>◌
abbrev pub ◌>>=◌ : {W A B : Type 0} → Run W A → (A → Run W B) → Run W B
◌>>=◌ m f w = after (m w) f

abbrev pub ◌>>◌ : {W B : Type 0} → Run W (Unit {0}) → Run W B → Run W B
m >> k = m >>= λ _. k

abbrev pub return : {W A : Type 0} → A → Run W A
return a w = some (ok a, w)

abbrev pub fail : {W A : Type 0} → String → Run W A
fail m w = some (err m, w)

-- A call that may fail, and one that only reads.
abbrev pub call : {W A : Type 0} → (W → Result A × W) → Run W A
call f w = some (f w)

abbrev pub ask : {W A : Type 0} → (W → Result A) → Run W A
ask f w = some (f w, w)

abbrev pub done : Option String → Result (Unit {0})
done none = ok tt
done (some m) = err m

-- A call that returns an error alone.
abbrev pub try : {W : Type 0} → (W → Option String × W) → Run W (Unit {0})
try f w = some (done (f w).0, (f w).1)

abbrev pub prefixed : {A : Type 0} → String → Result A → Result A
prefixed s (ok a) = ok a
prefixed s (err m) = err (s ++ m)

-- `os.Stat`: there is a file, there is none, or another error.
pub data Stat : Type 0 where
  found : Stat
  missing : Stat
  failed : Stat

-- What lego issues: the texts of a certificate and of its key.
pub record Resource : Type 0 where
  pub certificate : String
  pub private_key : String

-- What the file of a user holds. `encode` and `decode` are its JSON; `decode` reads into a new user.
pub record StoredUser (Reg : Type 0) : Type 0 where
  pub email : String
  pub registration : Option Reg
  pub key_encoded : String

-- `write_file` is `os.WriteFile`. `open_create` and `open_truncate` are `os.OpenFile` with the flags of
-- the code, and `write` is a write from the beginning of a file that one of these has opened.
pub record System (W Key Reg Client Provider Cert : Type 0) : Type 0 where
  pub stat : String → W → Stat
  pub read_file : String → W → Result String
  pub write_file : String → String → W → Option String × W
  pub mkdir_all : String → W → Option String × W
  pub open_create : String → W → Option String × W
  pub open_truncate : String → W → Option String × W
  pub write : String → String → W → Option String × W
  pub set_env : String → String → W → W
  pub dir : String → String
  pub join : List String → String
  pub encode : StoredUser Reg → Result String
  pub decode : String → Result (StoredUser Reg)
  pub generate_key : W → Result Key × W
  pub marshal_key : Key → Result String
  pub parse_key : String → Result Key
  pub pem_encode : String → String
  pub pem_decode : String → Option String
  pub new_client : String → Option Reg → Option Key → W → Result Client × W
  pub register : Client → W → Result Reg × W
  pub set_http : Client → W → Option String × W
  pub dns_provider : String → W → Result Provider × W
  pub set_dns : Client → Provider → W → Option String × W
  pub obtain : Client → String → W → Result Resource × W
  pub renew : Client → String → String → W → Result Resource × W
  pub parse_certificate : String → Result Cert
  pub self_signed : String → W → Result Resource × W

-- common/file/file.go: `IsExist`.
unfoldable pub is_exist : Stat → Bool
is_exist found = true
is_exist missing = false
is_exist failed = true

abbrev pub labelled : {W A : Type 0} → String → Option (Result A × W) → Option (Result A × W)
labelled s none = none
labelled s (some (r, w)) = some (prefixed s r, w)

-- `fmt.Errorf` around the error of a call.
abbrev pub label : {W A : Type 0} → String → Run W A → Run W A
label s m w = labelled s (m w)

-- Where a method returns a value, that value and the world behind it have the property.
abbrev pub Ends : {W A : Type 0} → (A → W → Type 0) → Option (Result A × W) → Type 0
Ends P none = Unit
Ends P (some (err m, w)) = Unit
Ends P (some (ok a, w)) = P a w

module _ {W A : Type 0} (P : A → W → Type 0) where
  pub after-Ends :
      {B : Type 0} (Q : B → W → Type 0) (r : Option (Result B × W)) (f : B → Run W A)
      → Ends Q r
      → ((b : B) (w : W) → Q b w → Ends P (f b w))
      → Ends P (after r f)
  after-Ends Q none f h k = tt
  after-Ends Q (some (err m, w)) f h k = tt
  after-Ends Q (some (ok b, w)) f h k = k b w h

  pub after-Ends_any :
      {B : Type 0} (r : Option (Result B × W)) (f : B → Run W A)
      → ((b : B) (w : W) → Ends P (f b w))
      → Ends P (after r f)
  after-Ends_any none f k = tt
  after-Ends_any (some (err m, w)) f k = tt
  after-Ends_any (some (ok b, w)) f k = k b w

  pub labelled-Ends : (s : String) (r : Option (Result A × W)) → Ends P r → Ends P (labelled s r)
  labelled-Ends s none h = tt
  labelled-Ends s (some (err m, w)) h = tt
  labelled-Ends s (some (ok a, w)) h = h

  pub at-Ends : (r : Option (Result A × W)) (a : A) (w : W) → r ≡ some (ok a, w) → Ends P r → P a w
  at-Ends none a w e h = cc
  at-Ends (some (err m, w')) a w e h = cc
  at-Ends (some (ok a', w')) a w e h = subst (λ (r : Option (Result A × W)). Ends P r) e h

  pub Ends-of_return :
      (r : Option (Result A × W)) → ((a : A) (w : W) → r ≡ some (ok a, w) → P a w) → Ends P r
  Ends-of_return none k = tt
  Ends-of_return (some (err m, w)) k = tt
  Ends-of_return (some (ok a, w)) k = k a w refl

  pub if-Ends :
      (b : Bool) (r s : Option (Result A × W))
      → (b ≡ true → Ends P r)
      → (b ≡ false → Ends P s)
      → Ends P (if b then r else s)
  if-Ends true r s t f = t refl
  if-Ends false r s t f = f refl

pub Ends-map :
    {W A : Type 0} (Q P : A → W → Type 0) (r : Option (Result A × W))
    → ((a : A) (w : W) → Q a w → P a w)
    → Ends Q r
    → Ends P r
Ends-map Q P none k h = tt
Ends-map Q P (some (err m, w)) k h = tt
Ends-map Q P (some (ok a, w)) k h = k a w h

pub try-Ends :
    {W : Type 0} (P : Unit {0} → W → Type 0) (e : Option String) (w : W)
    → (e ≡ none → P tt w)
    → Ends P (some (done e, w))
try-Ends P none w k = k refl
try-Ends P (some m) w k = tt
