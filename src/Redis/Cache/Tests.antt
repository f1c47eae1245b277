-- ===== src/Redis/Cache/Tests.antt =====
-- An instance of the theorem on JSON values, over Redis in memory and numbers in unary.
use exchange_watch.Base.{ℕ, ◌≡◌, refl, ap, none, some, ok, if◌then◌else◌}
use exchange_watch.Numbers.Unary.{print, parse, parse-print, print_some}
use exchange_watch.Redis.Cache.Stored.{empty, client}
use exchange_watch.Redis.Cache.Json.{Json, get, set_value, del, lives, get-set_value}

abbrev unary_json : Json ℕ
unary_json = record {
  stringify = print;
  parse = λ s. some (parse s);
  parse-stringify = λ n. ap some (parse-print n);
  stringify-some = print_some;
}

get-set_value_example :
    (get client unary_json "token" 6000 (set_value client unary_json "token" 7 (some 5) 500 empty)
      ≡ ok (if lives client unary_json (some 5) 500 6000 then some 7 else none))
    × (get client unary_json "other" 6000 (set_value client unary_json "token" 7 (some 5) 500 empty)
        ≡ get client unary_json "other" 6000 empty)
    × (get client unary_json "token" 6000
          (del client unary_json "token" (set_value client unary_json "token" 7 (some 5) 500 empty))
        ≡ ok none)
get-set_value_example =
    get-set_value client unary_json "token" "other" 7 (some 5) 500 6000 empty refl
