-- ===== src/Ldap/Credential/Laws.antt =====
-- What GetCred promises.
use pgfga.Base.{ap, String, ◌≡◌, refl, true, false, ◌&&◌, ◌==◌, if◌then◌else◌, Bool-cases, inl, inr}
use pgfga.Base.Result.{Result, ok, err, ok-injective}
use pgfga.Ldap.Credential.{System, Credential, load_value, decoded, loaded, get_cred}

-- The value is not empty, and it is what the credential holds now, decoded.
abbrev Settled : Result String × Credential → String → Type 0
Settled (r, c) v = ((v == "") ≡ false) × (c.value ≡ v) × (c.base64 ≡ false)

decoded-Settled :
    (sys : System) (c : Credential) (r : Result String) (v : String)
    → (decoded sys c r).0 ≡ ok v
    → Settled (decoded sys c r) v
decoded-Settled sys c (err e) v h = cc
decoded-Settled sys c (ok plain) v h = elim (Bool-cases (plain == "")) [
  | inl blank ↦ cc (rw blank at h)
  | inr full ↦ rw full (cc (full, ok-injective (rw full at h)), ok-injective (rw full at h), refl)
]

loaded-Settled :
    (sys : System) (c : Credential) (r : Result String) (v : String)
    → (loaded sys c r).0 ≡ ok v
    → Settled (loaded sys c r) v
loaded-Settled sys c (err e) v h = cc
loaded-Settled sys c (ok value) v h = elim (Bool-cases (value == "")) [
  | inl blank ↦ cc (rw blank at h)
  | inr full ↦ elim (Bool-cases c.base64) [
    | inl encoded ↦
        rw (full, encoded)
          (decoded-Settled sys (record c { value = value; base64 = true }) (sys.decode_base64 value)
            v (rw (full, encoded) at h))
    | inr plain ↦
        rw (full, plain)
          (
            cc (full, ok-injective (rw (full, plain) at h)),
            ok-injective (rw (full, plain) at h),
            refl,
          )
  ]
]

get_cred-Settled :
    (sys : System) (c : Credential) (v : String)
    → (get_cred sys c).0 ≡ ok v
    → Settled (get_cred sys c) v
unfolding get_cred
get_cred-Settled sys c v h = elim (Bool-cases (c.value == "" && c.file == "")) [
  | inl unset ↦ cc (rw unset at h)
  | inr given ↦ rw given (loaded-Settled sys c (load_value sys c) v (rw given at h))
]

-- A credential that holds a value which is not encoded gives it, and stays as it is.
get_cred-plain :
    (sys : System) (c : Credential)
    → (c.value == "") ≡ false
    → c.base64 ≡ false
    → get_cred sys c ≡ (ok c.value, c)
unfolding get_cred load_value
get_cred-plain sys c full plain =
    rw (full, full)
      (ap (λ b. if b then decoded sys c (sys.decode_base64 c.value) else (ok c.value, c)) plain)

-- If GetCred gives a value, then the value is not empty, and GetCred on the credential that the
-- call left gives the same value and leaves the same credential, whatever the files hold by then.
pub get_cred-get_cred :
    (sys sys' : System) (c : Credential) (v : String)
    → (get_cred sys c).0 ≡ ok v
    → ((v == "") ≡ false) × (get_cred sys' (get_cred sys c).1 ≡ (ok v, (get_cred sys c).1))
get_cred-get_cred sys sys' c v h =
    let (full, held, plain) = get_cred-Settled sys c v h in
    (full, cc (get_cred-plain sys' (get_cred sys c).1 (cc (full, held)) plain, held))
