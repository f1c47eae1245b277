-- ===== src/Numbers/Unary.antt =====
-- Natural numbers written in unary, as concrete functions for the operations of `Numbers`.
use Prim.Native.Nat.{max as max_nat}
use exchange_watch.Base.{
  ℕ, zero, suc, ◌+◌, ◌-◌, ◌*◌, ◌/◌, ◌≡◌, refl, ap, ◌≢◌, false, not, Bool-cases, inl, inr, eq_iff,
  arith, String, str_eq, ltb, leb, ◌==◌,
}
use exchange_watch.Numbers.{Numbers}

pub print : ℕ → String
print zero = "x"
print (suc n) = String.◌∷◌ "x" (print n)

unfoldable pub parse : String → ℕ
parse String.[] = 0
parse (String.◌∷◌ c String.[]) = 0
parse (String.◌∷◌ c (String.◌∷◌ d s)) = suc (parse (String.◌∷◌ d s))

size : String → ℕ
size String.[] = 0
size (String.◌∷◌ c s) = suc (size s)

size-print : (n : ℕ) → size (print n) ≢ 0
unfolding size print
size-print zero e = omega (arith, e)
size-print (suc n) e = omega (arith, e)

pub print_some : (n : ℕ) → str_eq (print n) "" ≡ false
unfolding size
print_some n = elim (Bool-cases (str_eq (print n) "")) [
  | inl h ↦ absurd (size-print n (ap size ((eq_iff (print n) "").0 h)))
  | inr h ↦ h
]

pub parse-print : (n : ℕ) → parse (print n) ≡ n
unfolding parse print
parse-print zero = refl
parse-print (suc zero) = refl
parse-print (suc (suc n)) = ap suc (parse-print (suc n))

abbrev pub unary_numbers : Numbers
unary_numbers = record {
  Num = ℕ;
  add = ◌+◌;
  sub = ◌-◌;
  mul = ◌*◌;
  div = ◌/◌;
  max = max_nat;
  abs = λ n. n;
  lt = ltb;
  le = leb;
  eq = ◌==◌;
  truthy = λ n. not (n == 0);
  nan = 0;
  int = λ n. n;
  round = λ n. n;
  to_fixed_6 = λ n. n;
  to_fixed_4 = λ n. n;
  parse = parse;
  print = print;
  parse_int = parse;
  print_int = print;
  storable = λ n. not (n == 0);
  decimal = λ n. n;
  nan_unstorable = refl;
  parse-print = parse-print;
  print_some = print_some;
  parse_int-print_int = parse-print;
  print_int_some = print_some;
}
