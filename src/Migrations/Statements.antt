-- ===== src/Migrations/Statements.antt =====
-- Comments in a migration file (splitStatements in
-- internal/controlplane/storage/sqlstore/migrate.go).
use docker_monitoring.Prelude.{
  ℕ, ◌≡◌, ◌⊎◌, refl, ap, sym, subst, Bool, true, false, List, [], ◌∷◌, ◌++◌, Text, codes, ◌==◌,
  arith, if◌then◌else◌, inl, inr, ◌∙◌,
}
use docker_monitoring.Strings.{split_by, push, has_prefix, after_prefix}
use docker_monitoring.Strings.Lines.{Lacks, split_by-part}
use docker_monitoring.Migrations.{before_comment, strip_lines, trimmed_parts, split_statements}

abbrev at_newline : ℕ → Bool
at_newline c = c == b'\n'

-- The text ends in a dash.
abbrev pub ends_dash : Text → Bool
ends_dash [] = false
ends_dash (c ∷ []) = c == b'-'
ends_dash (c ∷ d ∷ s) = ends_dash (d ∷ s)

abbrev dash_first : List Text → Bool
dash_first ((c ∷ line) ∷ lines) = c == b'-'
dash_first _ = false

-- Lists of lines that differ in comments at most.
abbrev SameBut : List Text → List Text → Type 0
SameBut (l ∷ ls) (m ∷ ms) = (before_comment l ≡ before_comment m) × SameBut ls ms
SameBut [] [] = Unit
SameBut _ _ = ⊥

SameBut-refl : (ls : List Text) → SameBut ls ls
SameBut-refl [] = tt
SameBut-refl (l ∷ ls) = (refl, SameBut-refl ls)

SameBut-strip_lines : (ls ms : List Text) → SameBut ls ms → strip_lines ls ≡ strip_lines ms
unfolding strip_lines
SameBut-strip_lines [] [] same = refl
SameBut-strip_lines [] (m ∷ ms) same = elim same [ ]
SameBut-strip_lines (l ∷ ls) [] same = elim same [ ]
SameBut-strip_lines (l ∷ ls) (m ∷ ms) (first, rest) =
    ground (arith, first, SameBut-strip_lines ls ms rest)

push-dash_first : (c : ℕ) (lines : List Text) → dash_first (push c lines) ≡ (c == b'-')
unfolding push
push-dash_first c [] = refl
push-dash_first c (line ∷ lines) = refl

dash_first-split_by : (c : ℕ) (s : Text) → dash_first (split_by at_newline (c ∷ s)) ≡ (c == b'-')
unfolding split_by
dash_first-split_by c s = ground (arith, push-dash_first c (split_by at_newline s))

before_comment-cons :
    (c : ℕ) (l m : Text)
    → before_comment l ≡ before_comment m
    → dash_first (l ∷ []) ≡ dash_first (m ∷ [])
    → before_comment (c ∷ l) ≡ before_comment (c ∷ m)
unfolding before_comment has_prefix after_prefix
before_comment-cons c [] [] same dash = refl
before_comment-cons c [] (b ∷ m) same dash = ground arith
before_comment-cons c (a ∷ l) [] same dash = ground arith
before_comment-cons c (a ∷ l) (b ∷ m) same dash = ground arith

before_comment-plain :
    (c : ℕ) (l : Text) → (c == b'-') ≡ false → before_comment (c ∷ l) ≡ c ∷ before_comment l
unfolding before_comment has_prefix after_prefix
before_comment-plain c l plain = ground arith

dash_first-head : (l : Text) (ls : List Text) → dash_first (l ∷ ls) ≡ dash_first (l ∷ [])
dash_first-head [] ls = refl
dash_first-head (c ∷ l) ls = refl

SameBut-push :
    (c : ℕ) (ls ms : List Text)
    → SameBut ls ms
    → dash_first ls ≡ dash_first ms
    → SameBut (push c ls) (push c ms)
unfolding push
SameBut-push c [] [] same dash = (refl, tt)
SameBut-push c [] (m ∷ ms) same dash = elim same [ ]
SameBut-push c (l ∷ ls) [] same dash = elim same [ ]
SameBut-push c (l ∷ ls) (m ∷ ms) (first, rest) dash = (
  before_comment-cons c l m first (sym (dash_first-head l ls) ∙ dash ∙ dash_first-head m ms),
  rest,
)

SameBut-plain :
    (c : ℕ) (ls ms : List Text)
    → SameBut ls ms
    → (c == b'-') ≡ false
    → SameBut (push c ls) (push c ms)
unfolding push
SameBut-plain c [] [] same plain = (refl, tt)
SameBut-plain c [] (m ∷ ms) same plain = elim same [ ]
SameBut-plain c (l ∷ ls) [] same plain = elim same [ ]
SameBut-plain c (l ∷ ls) (m ∷ ms) (first, rest) plain = (
  before_comment-plain c l plain ∙ ap (λ s. c ∷ s) first ∙ sym (before_comment-plain c m plain),
  rest,
)

-- One more byte before the comment.
SameBut-more :
    (c : ℕ) (s t : Text)
    → SameBut (split_by at_newline s) (split_by at_newline t)
    → ((c == b'-') ≡ false)
      ⊎ (dash_first (split_by at_newline s) ≡ dash_first (split_by at_newline t))
    → SameBut (split_by at_newline (c ∷ s)) (split_by at_newline (c ∷ t))
unfolding split_by
SameBut-more c s t same dash =
    elim (at_newline c)
      as (λ ends.
        SameBut (if ends then [] ∷ split_by at_newline s else push c (split_by at_newline s))
          (if ends then [] ∷ split_by at_newline t else push c (split_by at_newline t))) [
            | true ↦ (refl, same)
            | false ↦ elim dash [
              | inl plain ↦
                  SameBut-plain c (split_by at_newline s) (split_by at_newline t) same plain
              | inr both ↦ SameBut-push c (split_by at_newline s) (split_by at_newline t) same both
            ]
          ]

SameBut-split_by :
    (before comment after : Text)
    → Lacks at_newline comment
    → ends_dash before ≡ false
    → SameBut
        (split_by at_newline (before ++ codes "--" ++ comment ++ b'\n' ∷ after))
        (split_by at_newline (before ++ b'\n' ∷ after))
unfolding split_by before_comment has_prefix after_prefix
SameBut-split_by [] comment after lacks plain =
    subst (λ ls. SameBut ls ([] ∷ split_by at_newline after))
      (sym
        (split_by-part at_newline (b'-' ∷ b'-' ∷ comment) b'\n' after (refl, (refl, lacks)) refl))
      (refl, SameBut-refl (split_by at_newline after))
SameBut-split_by (c ∷ []) comment after lacks plain =
    SameBut-more c (codes "--" ++ comment ++ b'\n' ∷ after) (b'\n' ∷ after)
      (SameBut-split_by [] comment after lacks refl) (inl plain)
SameBut-split_by (c ∷ d ∷ s) comment after lacks plain =
    let left = s ++ codes "--" ++ comment ++ b'\n' ∷ after in
    let right = s ++ b'\n' ∷ after in
    SameBut-more c (d ∷ left) (d ∷ right) (SameBut-split_by (d ∷ s) comment after lacks plain)
      (inr (dash_first-split_by d left ∙ sym (dash_first-split_by d right)))

-- A comment is not read: a migration has the same statements with a comment at the end of a line,
-- whatever stands in it, semicolons included, and without it, where the dash before the comment is
-- the comment's own.
pub split_statements-comment :
    (before comment after : Text)
    → Lacks at_newline comment
    → ends_dash before ≡ false
    → split_statements (before ++ codes "--" ++ comment ++ b'\n' ∷ after)
      ≡ split_statements (before ++ b'\n' ∷ after)
unfolding split_statements
split_statements-comment before comment after lacks plain =
    ap (λ sql. trimmed_parts (split_by (λ c. c == b';') sql))
      (SameBut-strip_lines (split_by at_newline (before ++ codes "--" ++ comment ++ b'\n' ∷ after))
        (split_by at_newline (before ++ b'\n' ∷ after))
        (SameBut-split_by before comment after lacks plain))
