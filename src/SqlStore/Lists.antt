-- ===== src/SqlStore/Lists.antt =====
-- Lists under the loops of ListEvents (internal/controlplane/storage/sqlstore/event.go): selected,
-- reversed, sorted and cut.
use docker_monitoring.Prelude.{
  ℕ, zero, suc, ◌≡◌, refl, sym, ap, subst, append-nil, ◌∙◌, Bool, true, List, [], ◌∷◌, ◌++◌, map,
  keep, All, All-append, arith, Bool-cases,
}
use mathlib.Core.List.{reverse, reverse-cons}
use docker_monitoring.Prelude.Int.{ℤ, pos, negsuc}
use docker_monitoring.Storage.Memory.{insert_sorted}
use docker_monitoring.Storage.Memory.Events.{bounded, take}

module _ {A : Type 0} where
  pub insert_sorted-last :
      (less : A → A → Bool) (x : A) (ys : List A)
      → All (λ y. less y x ≡ true) ys
      → insert_sorted less x ys ≡ ys ++ (x ∷ [])
  unfolding insert_sorted
  insert_sorted-last less x [] all = refl
  insert_sorted-last less x (y ∷ ys) (before, all) =
      ground (arith, before, insert_sorted-last less x ys all)

  pub All-reverse : (P : A → Type 0) (xs : List A) → All P xs → All P (reverse xs)
  All-reverse P [] all = tt
  All-reverse P (x ∷ xs) (here, all) =
      subst (All P) (sym (reverse-cons x xs))
        (All-append P (reverse xs) (x ∷ []) (All-reverse P xs all) (here, tt))

  pub All-keep : (P : A → Type 0) (test : A → Bool) (xs : List A) → All P xs → All P (keep test xs)
  All-keep P test [] all = tt
  All-keep P test (x ∷ xs) (here, all) = ground (arith, here, All-keep P test xs all)

  pub keep-append :
      (test : A → Bool) (xs ys : List A) → keep test (xs ++ ys) ≡ keep test xs ++ keep test ys
  keep-append test [] ys = refl
  keep-append test (x ∷ xs) ys = ground (arith, keep-append test xs ys)

  pub keep-reverse :
      (test : A → Bool) (xs : List A) → keep test (reverse xs) ≡ reverse (keep test xs)
  keep-reverse test [] = refl
  keep-reverse test (x ∷ xs) =
      ap (keep test) (reverse-cons x xs)
      ∙ keep-append test (reverse xs) (x ∷ [])
      ∙ ground (
        arith,
        Bool-cases (test x),
        keep-reverse test xs,
        reverse-cons x (keep test xs),
        append-nil (reverse (keep test xs)),
      )

pub take-map :
    {A B : Type 0} (f : A → B) (n : ℕ) (xs : List A) → take n (map f xs) ≡ map f (take n xs)
take-map f zero xs = refl
take-map f (suc n) [] = refl
take-map f (suc n) (x ∷ xs) = ap (λ ys. f x ∷ ys) (take-map f n xs)

pub bounded-map :
    {A B : Type 0} (f : A → B) (limit : ℤ) (xs : List A)
    → bounded limit (map f xs) ≡ map f (bounded limit xs)
bounded-map f (negsuc n) xs = refl
bounded-map f (pos zero) xs = refl
bounded-map f (pos (suc n)) xs = take-map f (suc n) xs

pub take-All : {A : Type 0} (P : A → Type 0) (n : ℕ) (xs : List A) → All P xs → All P (take n xs)
take-All P zero xs all = tt
take-All P (suc n) [] all = tt
take-All P (suc n) (x ∷ xs) (here, all) = (here, take-All P n xs all)

pub bounded-All :
    {A : Type 0} (P : A → Type 0) (limit : ℤ) (xs : List A) → All P xs → All P (bounded limit xs)
bounded-All P (negsuc n) xs all = all
bounded-All P (pos zero) xs all = all
bounded-All P (pos (suc n)) xs all = take-All P (suc n) xs all

pub map-append :
    {A B : Type 0} (f : A → B) (xs ys : List A) → map f (xs ++ ys) ≡ map f xs ++ map f ys
map-append f [] ys = refl
map-append f (x ∷ xs) ys = ap (λ zs. f x ∷ zs) (map-append f xs ys)

pub map-reverse : {A B : Type 0} (f : A → B) (xs : List A) → map f (reverse xs) ≡ reverse (map f xs)
map-reverse f [] = refl
map-reverse f (x ∷ xs) =
    ap (map f) (reverse-cons x xs)
    ∙ map-append f (reverse xs) (x ∷ [])
    ∙ ap (λ zs. zs ++ (f x ∷ [])) (map-reverse f xs)
    ∙ sym (reverse-cons (f x) (map f xs))
