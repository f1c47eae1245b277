-- ===== src/Strings/Laws.antt =====
-- What the methods give on texts that are put together from known parts.
use Prim.Native.Char.{Char}
use Prim.Native.String.append
use Prim.Native.String.{◌++◌ as str_append}
use exchange_watch.Base.{
  ◌≡◌, refl, sym, ap, ◌∙◌, Bool, true, false, not, ◌&&◌, some, List, [], ◌∷◌, ◌++◌, String, str_eq,
  eq_iff, All, arith, if◌then◌else◌, Bool-cases, inl, inr, All-append,
}
use mathlib.Core.List.{append-nil, append_assoc}
use exchange_watch.Strings.{
  char_eq, strip_prefix, remove_first, split, put, put_all, from_entries, lookup,
}

pub strip_prefix-append : (p s : String) → strip_prefix p (str_append p s) ≡ some s
unfolding strip_prefix
strip_prefix-append String.[] s = rw (append.nil s) refl
strip_prefix-append (String.◌∷◌ c p) s =
    rw (append.cons c p s) (ground (arith, strip_prefix-append p s))

remove_first-strip : (p t rest : String) → strip_prefix p t ≡ some rest → remove_first p t ≡ rest
unfolding remove_first
remove_first-strip p String.[] rest e = ground (arith, e)
remove_first-strip p (String.◌∷◌ c t) rest e = ground (arith, e)

-- What stands before the rest is what is removed.
pub remove_first-append : (p s : String) → remove_first p (str_append p s) ≡ s
remove_first-append p s = remove_first-strip p (str_append p s) s (strip_prefix-append p s)

-- No character of the text is `d`.
unfoldable pub lacks : Char → String → Bool
lacks d String.[] = true
lacks d (String.◌∷◌ c s) = not (char_eq c d) && lacks d s

pub split-lacks : (d : Char) (s : String) → lacks d s ≡ true → split d s ≡ s ∷ []
unfolding split lacks
split-lacks d String.[] h = refl
split-lacks d (String.◌∷◌ c s) h = ground (arith, split-lacks d s, h)

pub split-append :
    (d : Char) (s t : String)
    → lacks d s ≡ true
    → split d (str_append s (String.◌∷◌ d t)) ≡ s ∷ split d t
unfolding split lacks
split-append d String.[] t h = rw (append.nil (String.◌∷◌ d t)) (ground arith)
split-append d (String.◌∷◌ c s) t h =
    rw (append.cons c s (String.◌∷◌ d t)) (ground (arith, split-append d s t, h))

pub lacks-append :
    (d : Char) (s t : String)
    → lacks d s ≡ true
    → lacks d t ≡ true
    → lacks d (str_append s t) ≡ true
unfolding lacks
lacks-append d String.[] t a b = rw (append.nil t) b
lacks-append d (String.◌∷◌ c s) t a b =
    rw (append.cons c s t) (ground (arith, lacks-append d s t, a, b))

-- A text before a character and a text.
pub split-between :
    (d : Char) (s t : String)
    → lacks d s ≡ true
    → lacks d t ≡ true
    → split d (str_append s (str_append (String.◌∷◌ d "") t)) ≡ s ∷ t ∷ []
split-between d s t a b =
    ap (λ u. split d (str_append s u)) (append.cons d "" t ∙ ap (String.◌∷◌ d) (append.nil t))
    ∙ split-append d s t a
    ∙ ap (λ rest. s ∷ rest) (split-lacks d t b)

module _ {ℓ} {A : Type ℓ} where
  abbrev pub Fresh : String → List (String × A) → Type 0
  Fresh k o = All (λ (e : String × A). str_eq (e.0) k ≡ false) o

  -- No two entries have one key.
  abbrev pub DistinctKeys : List (String × A) → Type 0
  DistinctKeys [] = Unit
  DistinctKeys (x ∷ xs) = All (λ (e : String × A). str_eq (x.0) (e.0) ≡ false) xs × DistinctKeys xs

  put-Fresh :
      (k : String) (a : A) (o : List (String × A)) → Fresh k o → put k a o ≡ o ++ (k, a) ∷ []
  put-Fresh k a [] f = refl
  put-Fresh k a ((j, b) ∷ o) f = rw (f.0) (ap (λ rest. (j, b) ∷ rest) (put-Fresh k a o f.1))

  Fresh-all :
      (k : String) (a : A) (o xs : List (String × A))
      → All (λ (e : String × A). Fresh (e.0) o) xs
      → All (λ (e : String × A). str_eq k (e.0) ≡ false) xs
      → All (λ (e : String × A). Fresh (e.0) (o ++ (k, a) ∷ [])) xs
  Fresh-all k a o [] f g = tt
  Fresh-all k a o (x ∷ xs) f g = (
    All-append (λ (e : String × A). str_eq (e.0) (x.0) ≡ false) o ((k, a) ∷ []) f.0 (g.0, tt),
    Fresh-all k a o xs f.1 g.1,
  )

  put_all-Fresh :
      (xs o : List (String × A))
      → DistinctKeys xs
      → All (λ (e : String × A). Fresh (e.0) o) xs
      → put_all xs o ≡ o ++ xs
  put_all-Fresh [] o d f = sym (append-nil o)
  put_all-Fresh ((k, a) ∷ xs) o d f = rw (put-Fresh k a o f.0) (
      put_all-Fresh xs (o ++ (k, a) ∷ []) d.1 (Fresh-all k a o xs f.1 d.0)
      ∙ append_assoc o ((k, a) ∷ []) xs)

  -- An object made of entries with distinct keys has these entries.
  pub from_entries-DistinctKeys : (xs : List (String × A)) → DistinctKeys xs → from_entries xs ≡ xs
  from_entries-DistinctKeys xs d = put_all-Fresh xs [] d (all_fresh xs)
    where
      all_fresh : (ys : List (String × A)) → All (λ (e : String × A). Fresh (e.0) []) ys
      all_fresh [] = tt
      all_fresh (y ∷ ys) = (tt, all_fresh ys)

  pub lookup-put :
      (k j : String) (a : A) (o : List (String × A))
      → lookup j (put k a o) ≡ (if str_eq k j then some a else lookup j o)
  lookup-put k j a [] = refl
  lookup-put k j a ((i, b) ∷ o) = elim (Bool-cases (str_eq i k)) [
    | inl e ↦
        let s : i ≡ k = (eq_iff i k).0 e in
        rw (e, s) (elim (Bool-cases (str_eq k j)) [ inl h ↦ rw h refl | inr h ↦ rw h refl ])
    | inr e ↦ elim (Bool-cases (str_eq i j)) [
      | inl h ↦
          let s : i ≡ j = (eq_iff i j).0 h in
          let n : str_eq k j ≡ false = flips i j k s e in rw (e, h, n) refl
      | inr h ↦ rw (e, h) (lookup-put k j a o)
    ]
  ]
    where
      flips : (i j k : String) → i ≡ j → str_eq i k ≡ false → str_eq k j ≡ false
      flips i j k s e = elim (Bool-cases (str_eq k j)) [
        | inl h ↦ cc ((eq_iff i k).1 (s ∙ sym ((eq_iff k j).0 h)), e)
        | inr h ↦ h
      ]
