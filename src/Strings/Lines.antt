-- ===== src/Strings/Lines.antt =====
-- The words of a line, and a prefix of it.
use docker_monitoring.Prelude.{
  ℕ, ◌≡◌, ◌≢◌, refl, Bool, true, false, [], ◌∷◌, ◌++◌, All, Text, arith,
}
use docker_monitoring.Strings.{after_prefix, has_prefix, is_space, is_digit, push, split_by, fields}

-- No byte of a text is accepted by a test.
abbrev pub Lacks : (ℕ → Bool) → Text → Type 0
Lacks test = All (λ c. test c ≡ false)

pub split_by-part :
    (test : ℕ → Bool) (part : Text) (c : ℕ) (s : Text)
    → Lacks test part
    → test c ≡ true
    → split_by test (part ++ (c ∷ s)) ≡ part ∷ split_by test s
unfolding split_by push
split_by-part test [] c s clean hit = ground arith
split_by-part test (d ∷ part) c s clean hit =
    ground (arith, split_by-part test part c s clean.1 hit)

pub split_by-whole :
    (test : ℕ → Bool) (part : Text) → Lacks test part → split_by test part ≡ part ∷ []
unfolding split_by push
split_by-whole test [] clean = refl
split_by-whole test (d ∷ part) clean = ground (arith, split_by-whole test part clean.1)

-- A word, a space, and what follows.
pub fields-word :
    (word : Text) (c : ℕ) (s : Text)
    → word ≢ []
    → Lacks is_space word
    → is_space c ≡ true
    → fields (word ++ (c ∷ s)) ≡ word ∷ fields s
unfolding fields
fields-word word c s filled clean hit = ground (arith, split_by-part is_space word c s clean hit)

pub fields-last : (word : Text) → word ≢ [] → Lacks is_space word → fields word ≡ word ∷ []
unfolding fields
fields-last word filled clean = ground (arith, split_by-whole is_space word clean)

pub fields-spaces : (pad s : Text) → All (λ c. is_space c ≡ true) pad → fields (pad ++ s) ≡ fields s
unfolding fields split_by
fields-spaces [] s blank = refl
fields-spaces (c ∷ pad) s blank = ground (arith, fields-spaces pad s blank.1)

pub has_prefix-append : (prefix s : Text) → has_prefix prefix (prefix ++ s) ≡ true
unfolding has_prefix after_prefix
has_prefix-append [] s = refl
has_prefix-append (c ∷ prefix) s = ground (arith, has_prefix-append prefix s)

digit-not-space : (c : ℕ) → is_digit c ≡ true → is_space c ≡ false
unfolding is_digit is_space
digit-not-space c h = ground arith

pub digits-Lacks : (s : Text) → All (λ c. is_digit c ≡ true) s → Lacks is_space s
digits-Lacks [] h = tt
digits-Lacks (c ∷ s) h = (digit-not-space c h.0, digits-Lacks s h.1)
