-- ===== src/Strings.antt =====
-- The methods of JavaScript's strings and objects that the source calls, by clauses.
pub mod Laws
use Prim.Native.Char.{Char, code}
use Prim.Native.String.{◌++◌ as str_append}
use exchange_watch.Base.{
  ℕ, Bool, true, false, not, Option, none, some, List, [], ◌∷◌, String, str_eq, ◌==◌, if◌then◌else◌,
}

abbrev pub char_eq : Char → Char → Bool
char_eq c d = code c == code d

-- What is left of a text that begins with another.
unfoldable pub strip_prefix : String → String → Option String
strip_prefix String.[] s = some s
strip_prefix (String.◌∷◌ c p) String.[] = none
strip_prefix (String.◌∷◌ c p) (String.◌∷◌ d s) =
    let rest = strip_prefix p s in if char_eq c d then rest else none

-- `s.replace(p, '')`: without the first place where `p` stands.
unfoldable pub remove_first : String → String → String
unfolding strip_prefix
remove_first p String.[] = elim (strip_prefix p "") [ none ↦ "" | some rest ↦ rest ]
remove_first p (String.◌∷◌ c s) = elim (strip_prefix p (String.◌∷◌ c s)) [
  | none ↦ String.◌∷◌ c (remove_first p s)
  | some rest ↦ rest
]

-- A character before the first of some pieces.
abbrev pub to_first : Char → List String → List String
to_first c [] = String.◌∷◌ c "" ∷ []
to_first c (piece ∷ pieces) = String.◌∷◌ c piece ∷ pieces

-- `s.split(d)` at one character.
unfoldable pub split : Char → String → List String
split d String.[] = "" ∷ []
split d (String.◌∷◌ c s) =
    let rest = split d s in if char_eq c d then "" ∷ rest else to_first c rest

-- `pieces.join(d)`
abbrev pub join : String → List String → String
join d [] = ""
join d (piece ∷ []) = piece
join d (piece ∷ next ∷ rest) = str_append piece (str_append d (join d (next ∷ rest)))

-- `o[k] = a` and `Object.fromEntries`
abbrev pub put {ℓ} : {A : Type ℓ} → String → A → List (String × A) → List (String × A)
put k a [] = (k, a) ∷ []
put k a ((j, b) ∷ rest) = if str_eq j k then (k, a) ∷ rest else (j, b) ∷ put k a rest

abbrev pub put_all {ℓ} : {A : Type ℓ} → List (String × A) → List (String × A) → List (String × A)
put_all [] o = o
put_all ((k, a) ∷ rest) o = put_all rest (put k a o)

abbrev pub from_entries {ℓ} : {A : Type ℓ} → List (String × A) → List (String × A)
from_entries entries = put_all entries []

-- A property of an object.
abbrev pub lookup {ℓ} : {A : Type ℓ} → String → List (String × A) → Option A
lookup k [] = none
lookup k ((j, a) ∷ rest) = if str_eq j k then some a else lookup k rest
