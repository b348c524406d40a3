-- ===== src/Examples/Hashes.antt =====
-- Password hashes with a stand-in for Argon2id and base64.
use docker_monitoring.Prelude.{
  ℕ, suc, zero, ◌+◌, ◌-◌, ◌≡◌, refl, ap, true, some, [], ◌∷◌, Text, codes, text_eq, length, arith,
  ◌==◌,
}
use docker_monitoring.Strings.Lines.{Lacks}
use docker_monitoring.Auth.Phc.{
  Argon, ArgonLaws, key_of, hash_with, verify_encoded, verify-hash_with,
}

-- The first bytes of a text, zeros behind it.
unfoldable fill : ℕ → Text → Text
fill zero p = []
fill (suc k) [] = 0 ∷ fill k []
fill (suc k) (c ∷ p) = c ∷ fill k p

-- Each byte moved past the dollar sign, and back.
unfoldable shifted : Text → Text
shifted [] = []
shifted (c ∷ s) = (c + 37) ∷ shifted s

unfoldable shifted_back : Text → Text
shifted_back [] = []
shifted_back (c ∷ s) = (c - 37) ∷ shifted_back s

length-fill : (k : ℕ) (p : Text) → length (fill k p) ≡ k
unfolding fill
length-fill zero p = refl
length-fill (suc k) [] = ap suc (length-fill k [])
length-fill (suc k) (c ∷ p) = ap suc (length-fill k p)

shifted_back-shifted : (s : Text) → shifted_back (shifted s) ≡ s
unfolding shifted shifted_back
shifted_back-shifted [] = refl
shifted_back-shifted (c ∷ s) = ground (arith, shifted_back-shifted s)

shifted-Lacks : (s : Text) → Lacks (λ c. c == b'$') (shifted s)
unfolding shifted
shifted-Lacks [] = tt
shifted-Lacks (c ∷ s) = (ground arith, shifted-Lacks s)

abbrev plain_argon : Argon
plain_argon = record {
  id_key = λ plaintext salt time mem threads len. fill len plaintext;
  encode = shifted;
  decode = λ s. some (shifted_back s);
  scan_version = λ s. some 19;
  scan_params = λ s. some (65536, 1, 4);
}

plain_argon-ArgonLaws : ArgonLaws plain_argon
plain_argon-ArgonLaws = record {
  decode-encode = λ s. ap some (shifted_back-shifted s);
  encode-Lacks = shifted-Lacks;
  length-id_key = λ p s t m n k. length-fill k p;
  scan_version-printed = refl;
  scan_params-printed = refl;
}

verify-hash_with_example :
    (verify_encoded plain_argon
        (codes "guess")
        (hash_with plain_argon (codes "salt") (codes "pass"))
      ≡ some (
          text_eq
            (key_of plain_argon (codes "guess") (codes "salt"))
            (key_of plain_argon (codes "pass") (codes "salt"))))
    × (verify_encoded plain_argon
          (codes "pass")
          (hash_with plain_argon (codes "salt") (codes "pass"))
        ≡ some true)
verify-hash_with_example =
    verify-hash_with plain_argon plain_argon-ArgonLaws (codes "salt") (codes "pass") (codes "guess")
