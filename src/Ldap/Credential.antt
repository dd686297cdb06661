-- ===== src/Ldap/Credential.antt =====
-- pkg/ldap/credential.go: a credential given as a value or in a file.
pub mod Laws
use Prim.Native.Nat.{bit_and}
use pgfga.Base.{ℕ, String, Bool, true, false, Option, none, some, ◌&&◌, ◌==◌, ◌=ℕ=◌, if◌then◌else◌}
use pgfga.Base.Result.{Result, ok, err, failure, ◌>>=◌}

-- The operating system and encoding/base64: the mode of a file, the output of a program that is
-- run (none for an error), the content of a file, and the decoding of a text.
pub record System : Type 0 where
  pub lstat : String → Result ℕ
  pub run : String → Option String
  pub read_file : String → Result String
  pub decode_base64 : String → Result String

pub record Credential : Type 0 where
  pub value : String
  pub file : String
  pub base64 : Bool

abbrev pub executable_bits : ℕ
executable_bits = 0o111

module _ (sys : System) where
  -- isExecutable
  unfoldable pub is_executable : String → Result Bool
  is_executable filename = do
    mode ← sys.lstat filename
    ok (bit_and mode executable_bits =ℕ= executable_bits)

  -- fromExecutable: an error of the program gives the empty text, and no error
  unfoldable pub from_executable : String → Result String
  from_executable filename = elim (sys.run filename) [ none ↦ ok "" | some out ↦ ok out ]

  -- fromFile
  unfoldable pub from_file : String → Result String
  unfolding is_executable from_executable
  from_file filename = do
    is_exec ← is_executable filename
    if is_exec then from_executable filename else sys.read_file filename

  -- the first read of GetCred: what c.Value is afterwards
  unfoldable pub load_value : Credential → Result String
  unfolding from_file
  load_value c = if c.value == "" then from_file c.file else ok c.value

  abbrev decoded : Credential → Result String → Result String × Credential
  decoded c (err e) = (err e, c)
  decoded c (ok plain) =
      let c' = record c { value = plain; base64 = false } in
      if plain == ""
      then (err (failure "empty credential after base64 decryption"), c')
      else (ok plain, c')

  abbrev loaded : Credential → Result String → Result String × Credential
  loaded c (err e) = (err e, record c { value = "" })
  loaded c (ok value) =
      let c' = record c { value = value } in
      if value == ""
      then (err (failure "credential file is empty"), c')
      else if c.base64
      then decoded c' (sys.decode_base64 value)
      else (ok value, c')

  -- Credential.GetCred, with the credential as the call leaves it
  unfoldable pub get_cred : Credential → Result String × Credential
  unfolding load_value
  get_cred c =
      if c.value == "" && c.file == ""
      then (err (failure "either value or file must be set in a credential"), c)
      else loaded c (load_value c)
