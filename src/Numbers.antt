-- ===== src/Numbers.antt =====
-- The numbers of JavaScript, which are no part of the repository: what the source computes with them.
pub mod Unary
use exchange_watch.Base.{ℕ, ◌≡◌, Bool, false, Option, none, some, String, str_eq, not}

pub record Numbers : Type 1 where
  pub Num : Type 0
  pub add : Num → Num → Num
  pub sub : Num → Num → Num
  pub mul : Num → Num → Num
  pub div : Num → Num → Num
  pub max : Num → Num → Num
  pub abs : Num → Num
  pub lt : Num → Num → Bool
  pub le : Num → Num → Bool
  pub eq : Num → Num → Bool
  -- whether a number is neither 0 nor NaN
  pub truthy : Num → Bool
  pub nan : Num
  -- an integer, `Math.round(x)`, `parseFloat(x.toFixed(6))` and `parseFloat(x.toFixed(4))`
  pub int : ℕ → Num
  pub round : Num → Num
  pub to_fixed_6 : Num → Num
  pub to_fixed_4 : Num → Num
  -- `Number(s)`, which also reads a decimal literal, and `String(x)`
  pub parse : String → Num
  pub print : Num → String
  -- `parseInt(s)` and `String(t)` of a timestamp
  pub parse_int : String → ℕ
  pub print_int : ℕ → String
  -- whether a column Decimal(20, 8) can hold a number, and what it keeps of it
  pub storable : Num → Bool
  pub decimal : Num → Num
  pub nan_unstorable : storable nan ≡ false
  -- a printed number is not empty and reads back as itself
  pub parse-print : (x : Num) → parse (print x) ≡ x
  pub print_some : (x : Num) → str_eq (print x) "" ≡ false
  pub parse_int-print_int : (t : ℕ) → parse_int (print_int t) ≡ t
  pub print_int_some : (t : ℕ) → str_eq (print_int t) "" ≡ false

-- Whether a string that may be missing is neither missing nor empty.
abbrev pub is_truthy : Option String → Bool
is_truthy none = false
is_truthy (some s) = not (str_eq s "")
