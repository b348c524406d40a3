-- ===== src/Hub/Parts.antt =====
-- Parts of what a topic was sent, in its order.
use docker_monitoring.Prelude.{List, [], ◌∷◌, ◌++◌}

-- The first list is what is left of the second when some of its members are left out.
pub data IsPart {V : Type 0} : List V → List V → Type 0 where
  part_nil : IsPart [] []
  part_keep : {x : V} {xs ys : List V} → IsPart xs ys → IsPart (x ∷ xs) (x ∷ ys)
  part_skip : {y : V} {xs ys : List V} → IsPart xs ys → IsPart xs (y ∷ ys)

module _ {V : Type 0} where
  pub append-IsPart :
      (x : V) {xs ys : List V} → IsPart xs ys → IsPart (xs ++ (x ∷ [])) (ys ++ (x ∷ []))
  append-IsPart x part_nil = part_keep part_nil
  append-IsPart x (part_keep p) = part_keep (append-IsPart x p)
  append-IsPart x (part_skip p) = part_skip (append-IsPart x p)

  pub skip-IsPart : (x : V) {xs ys : List V} → IsPart xs ys → IsPart xs (ys ++ (x ∷ []))
  skip-IsPart x part_nil = part_skip part_nil
  skip-IsPart x (part_keep p) = part_keep (skip-IsPart x p)
  skip-IsPart x (part_skip p) = part_skip (skip-IsPart x p)
