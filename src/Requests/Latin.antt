-- ===== src/Requests/Latin.antt =====
-- The capital letters of the Latin alphabet: a concrete function for the method `toUpperCase`.
use Prim.Native.Char.{Char, code}
use Prim.Native.String.{String}
use exchange_watch.Base.{◌≡◌, refl, ap, ◌∙◌, false, ◌⊎◌, inl, inr, Bool-cases, if◌then◌else◌, arith}
use exchange_watch.Strings.{char_eq}
use exchange_watch.Requests.{is_space, remove_spaces}

abbrev capital_among : Char → String → String → Char
capital_among c String.[] capitals = c
capital_among c (String.◌∷◌ x xs) String.[] = c
capital_among c (String.◌∷◌ x xs) (String.◌∷◌ y ys) =
    if char_eq c x then y else capital_among c xs ys

abbrev capital : Char → Char
capital c = capital_among c "abcdefghijklmnopqrstuvwxyz" "ABCDEFGHIJKLMNOPQRSTUVWXYZ"

unfoldable pub to_upper_case : String → String
to_upper_case String.[] = ""
to_upper_case (String.◌∷◌ c s) = String.◌∷◌ (capital c) (to_upper_case s)

abbrev Every : (Char → Type 0) → String → Type 0
Every P String.[] = Unit
Every P (String.◌∷◌ c s) = P c × Every P s

-- A letter stays, or becomes one of the capitals.
among-cases :
    (P : Char → Type 0) (c : Char) (letters capitals : String)
    → Every P capitals
    → (capital_among c letters capitals ≡ c) ⊎ P (capital_among c letters capitals)
among-cases P c String.[] capitals a = inl refl
among-cases P c (String.◌∷◌ x xs) String.[] a = inl refl
among-cases P c (String.◌∷◌ x xs) (String.◌∷◌ y ys) a = elim (Bool-cases (char_eq c x)) [
  | inl h ↦ rw h (inr a.0)
  | inr h ↦ rw h (among-cases P c xs ys a.1)
]

capital_idem : (c : Char) → capital (capital c) ≡ capital c
capital_idem c =
    elim (among-cases (λ y. capital y ≡ y) c "abcdefghijklmnopqrstuvwxyz"
      "ABCDEFGHIJKLMNOPQRSTUVWXYZ" (ground arith)) [ inl h ↦ ap capital h | inr h ↦ h ]

capital-is_space : (c : Char) → is_space (code c) ≡ false → is_space (code (capital c)) ≡ false
capital-is_space c n =
    elim (among-cases (λ y. is_space (code y) ≡ false) c "abcdefghijklmnopqrstuvwxyz"
      "ABCDEFGHIJKLMNOPQRSTUVWXYZ" (ground arith)) [
        | inl h ↦ ap (λ y. is_space (code y)) h ∙ n
        | inr h ↦ h
      ]

pub to_upper_case_idem : (s : String) → to_upper_case (to_upper_case s) ≡ to_upper_case s
unfolding to_upper_case
to_upper_case_idem String.[] = refl
to_upper_case_idem (String.◌∷◌ c s) = cc (capital_idem c, to_upper_case_idem s)

pub to_upper_case-remove_spaces :
    (s : String) → remove_spaces (to_upper_case (remove_spaces s)) ≡ to_upper_case (remove_spaces s)
unfolding to_upper_case remove_spaces
to_upper_case-remove_spaces String.[] = refl
to_upper_case-remove_spaces (String.◌∷◌ c s) = elim (Bool-cases (is_space (code c))) [
  | inl h ↦ rw h (to_upper_case-remove_spaces s)
  | inr h ↦
      rw (h, to_upper_case, remove_spaces, capital-is_space c h)
        (ap (String.◌∷◌ (capital c)) (to_upper_case-remove_spaces s))
]
