-- ===== src/Docker/Paths.antt =====
-- The container that a request of internal/agent/docker/containers.go is about.
use docker_monitoring.Prelude.{
  ℕ, ◌+◌, ◌-◌, ◌*◌, ◌&&◌, Option, none, some, [], ◌∷◌, Text, codes, leb, ◌==◌, if◌then◌else◌,
}
use docker_monitoring.Strings.{after_prefix, cut}

-- A reader of percent-encoded text: where it stands in an escape.
pub data Reading : Type 0 where
  plain after_percent : Reading
  after_digit : ℕ → Reading

abbrev pub hex_value : ℕ → Option ℕ
hex_value c =
    if leb b'0' c && leb c b'9'
    then some (c - b'0')
    else if leb b'A' c && leb c b'F'
    then some (c - b'A' + 10)
    else none

abbrev pub with_byte : ℕ → Option Text → Option Text
with_byte c none = none
with_byte c (some s) = some (c ∷ s)

unfoldable pub unescape : Reading → Text → Option Text
unescape plain [] = some []
unescape after_percent [] = none
unescape (after_digit h) [] = none
unescape plain (c ∷ s) =
    let escaped = unescape after_percent s in
    let kept = unescape plain s in if c == b'%' then escaped else with_byte c kept
unescape after_percent (c ∷ s) = elim (hex_value c) [
  | none ↦ none
  | some h ↦ unescape (after_digit h) s
]
unescape (after_digit h) (c ∷ s) =
    let rest = unescape plain s in
    elim (hex_value c) [ none ↦ none | some l ↦ with_byte (16 * h + l) rest ]

-- The container and the action that a path names: the segment after /containers/, decoded, and what
-- follows the slash after it.
unfoldable pub target_of : Text → Option (Text × Text)
target_of path = elim (after_prefix (codes "/containers/") path) [
  | none ↦ none
  | some rest ↦ elim (cut b'/' rest) [
    | none ↦ none
    | some (segment, action) ↦ elim (unescape plain segment) [
      | none ↦ none
      | some id ↦ some (id, action)
    ]
  ]
]
