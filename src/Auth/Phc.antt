-- ===== src/Auth/Phc.antt =====
-- HashPassword and VerifyPassword of internal/controlplane/auth/password.go. Argon2id, base64,
-- fmt's Sscanf and the decimal text of the parameters are outside: `Argon`.
use docker_monitoring.Prelude.{
  ℕ, ◌*◌, ◌≡◌, refl, ◌∙◌, ap, Bool, true, not, ◌||◌, Option, none, some, List, [], ◌∷◌, ◌++◌, Text,
  codes, text_eq, text_eq_refl, is_empty, length, ◌==◌, arith, if◌then◌else◌,
}
use docker_monitoring.Strings.{split_by, push}
use docker_monitoring.Strings.Lines.{Lacks, split_by-part, split_by-whole}
use docker_monitoring.Auth.{Passwords}

-- What the file calls: the key of a password, a salt, rounds, memory, threads and a length; base64
-- without padding; the version and the parameters that a text starts with. Argon2id panics for no
-- rounds or threads, which no hash of HashPassword asks for.
pub record Argon : Type 0 where
  pub id_key : Text → Text → ℕ → ℕ → ℕ → ℕ → Text
  pub encode : Text → Text
  pub decode : Text → Option Text
  pub scan_version : Text → Option ℕ
  pub scan_params : Text → Option (ℕ × ℕ × ℕ)

abbrev pub argon_version : ℕ
argon_version = 19

abbrev pub argon_memory : ℕ
argon_memory = 64 * 1024

abbrev pub argon_time : ℕ
argon_time = 1

abbrev pub argon_threads : ℕ
argon_threads = 4

abbrev pub argon_key_len : ℕ
argon_key_len = 32

-- "v=%d" and "m=%d,t=%d,p=%d" at the constants.
abbrev pub version_text : Text
version_text = codes "v=19"

abbrev pub params_text : Text
params_text = codes "m=65536,t=1,p=4"

abbrev at_dollar : ℕ → Bool
at_dollar c = c == b'$'

module _ (argon : Argon) where
  -- The key of a password under the file's constants.
  abbrev pub key_of : Text → Text → Text
  key_of plaintext salt =
      argon.id_key plaintext salt argon_time argon_memory argon_threads argon_key_len

  -- HashPassword once the salt has been drawn.
  unfoldable pub hash_with : Text → Text → Text
  hash_with salt plaintext =
      b'$'
      ∷ (codes "argon2id"
          ++ (b'$'
              ∷ (version_text
                  ++ (b'$'
                      ∷ (params_text
                          ++ (b'$'
                              ∷ (argon.encode salt
                                  ++ (b'$' ∷ argon.encode (key_of plaintext salt)))))))))

  -- VerifyPassword on a text of six parts.
  unfoldable pub verify_parts : Text → Text → Text → Text → Text → Option Bool
  verify_parts plaintext version params salt_text hash_text = elim (argon.scan_version version) [
    | none ↦ none
    | some v ↦ if not (v == argon_version) then none else elim (argon.scan_params params) [
      | none ↦ none
      | some (mem, time, threads) ↦ elim (argon.decode salt_text) [
        | none ↦ none
        | some salt ↦ elim (argon.decode hash_text) [
          | none ↦ none
          | some want ↦
              some (text_eq (argon.id_key plaintext salt time mem threads (length want)) want)
        ]
      ]
    ]
  ]

  -- `none` is the error for a hash that is not well formed.
  unfoldable pub verify_encoded : Text → Text → Option Bool
  unfolding split_by verify_parts
  verify_encoded plaintext encoded = elim (split_by at_dollar encoded) [
    | lead ∷ name ∷ version ∷ params ∷ salt ∷ hash ∷ [] ↦
        if not (is_empty lead) || not (text_eq name (codes "argon2id"))
        then none
        else verify_parts plaintext version params salt hash
    | _ ↦ none
  ]

  -- What Auth takes: `salts n` is the n-th draw of the random generator, and `first_salt` the one for
  -- the dummy hash, before main runs.
  abbrev pub passwords_with : (ℕ → Option Text) → Option Text → Passwords
  passwords_with salts first_salt = record {
    hash_password =
        λ n plaintext. elim (salts n) [ none ↦ none | some salt ↦ some (hash_with salt plaintext) ];
    verify_password = verify_encoded;
    dummy_hash = elim first_salt [
      | none ↦ []
      | some salt ↦ hash_with salt (codes "dummy-password-for-timing-parity-only")
    ];
  }

-- Documented behaviour: base64 decodes what it encoded and has no dollar sign, Argon2id returns a
-- key of the length that it is asked for, and Sscanf reads back what Sprintf printed.
pub record ArgonLaws (argon : Argon) : Type 0 where
  pub decode-encode : (s : Text) → argon.decode (argon.encode s) ≡ some s
  pub encode-Lacks : (s : Text) → Lacks at_dollar (argon.encode s)
  pub length-id_key : (p s : Text) (t m n k : ℕ) → length (argon.id_key p s t m n k) ≡ k
  pub scan_version-printed : argon.scan_version version_text ≡ some argon_version
  pub scan_params-printed :
      argon.scan_params params_text ≡ some (argon_memory, argon_time, argon_threads)

module _ (argon : Argon) (laws : ArgonLaws argon) where
  parts_of-hash_with :
      (salt plaintext : Text)
      → split_by at_dollar (hash_with argon salt plaintext)
        ≡ []
          ∷ codes "argon2id"
          ∷ version_text
          ∷ params_text
          ∷ argon.encode salt
          ∷ argon.encode (key_of argon plaintext salt)
          ∷ []
  unfolding hash_with split_by push
  parts_of-hash_with salt plaintext =
      ap (λ (parts : List Text). [] ∷ codes "argon2id" ∷ version_text ∷ params_text ∷ parts)
        (split_by-part at_dollar (argon.encode salt) b'$'
            (argon.encode (key_of argon plaintext salt)) (laws.encode-Lacks salt) refl
          ∙ ap (λ (parts : List Text). argon.encode salt ∷ parts)
              (split_by-whole at_dollar (argon.encode (key_of argon plaintext salt))
                (laws.encode-Lacks (key_of argon plaintext salt))))

  verify_encoded-parts :
      (guess encoded version params salt hash : Text)
      → split_by at_dollar encoded ≡ [] ∷ codes "argon2id" ∷ version ∷ params ∷ salt ∷ hash ∷ []
      → verify_encoded argon guess encoded ≡ verify_parts argon guess version params salt hash
  unfolding verify_encoded
  verify_encoded-parts guess encoded version params salt hash split =
      ground (arith, split, text_eq_refl (codes "argon2id"))

  verify_parts-key :
      (guess plaintext salt : Text)
      → verify_parts argon guess version_text params_text
          (argon.encode salt)
          (argon.encode (key_of argon plaintext salt))
        ≡ some (text_eq (key_of argon guess salt) (key_of argon plaintext salt))
  unfolding verify_parts
  verify_parts-key guess plaintext salt = ground (
    arith,
    laws.scan_version-printed,
    laws.scan_params-printed,
    laws.decode-encode salt,
    laws.decode-encode (key_of argon plaintext salt),
    laws.length-id_key plaintext salt argon_time argon_memory argon_threads argon_key_len,
  )

  verify-stored :
      (salt plaintext guess : Text)
      → verify_encoded argon guess (hash_with argon salt plaintext)
        ≡ some (text_eq (key_of argon guess salt) (key_of argon plaintext salt))
  verify-stored salt plaintext guess =
      verify_encoded-parts guess (hash_with argon salt plaintext) version_text params_text
        (argon.encode salt) (argon.encode (key_of argon plaintext salt))
        (parts_of-hash_with salt plaintext)
      ∙ verify_parts-key guess plaintext salt

  -- A password verifies exactly against its own key: a text is accepted for the stored hash of a
  -- password and salt just if Argon2id gives it the same key under that salt, so the password itself
  -- is accepted; the stored hash is never reported as malformed.
  pub verify-hash_with :
      (salt plaintext guess : Text)
      → (verify_encoded argon guess (hash_with argon salt plaintext)
          ≡ some (text_eq (key_of argon guess salt) (key_of argon plaintext salt)))
        × (verify_encoded argon plaintext (hash_with argon salt plaintext) ≡ some true)
  verify-hash_with salt plaintext guess = (
    verify-stored salt plaintext guess,
    verify-stored salt plaintext plaintext
        ∙ ap (λ (b : Bool). some b) (text_eq_refl (key_of argon plaintext salt)),
  )
