-- ===== src/Redis/Cache/Json.antt =====
-- redis.service.ts: `get`, `set` and `del` with JSON texts. JSON is the language's.
use exchange_watch.Base.{
  ℕ, zero, suc, ◌+◌, ◌*◌, ◌≡◌, refl, ap, ◌∙◌, false, true, Bool, Option, none, some, String, str_eq,
  Result, ok, err, ltb, List, [], ◌∷◌, ◌++◌, if◌then◌else◌,
}
use exchange_watch.Redis.Cache.{Client, set}

-- `JSON.stringify` and `JSON.parse` at one type of value, with `none` where `JSON.parse` throws; no JSON text is empty.
pub record Json (A : Type 0) : Type 0 where
  pub stringify : A → String
  pub parse : String → Option A
  pub parse-stringify : (a : A) → parse (stringify a) ≡ some a
  pub stringify-some : (a : A) → str_eq (stringify a) "" ≡ false

-- What `JSON.parse` throws, which `get` logs and throws again.
pub data JsonError : Type 0 where
  syntax_error : JsonError

module _ (C : Client) {A : Type 0} (J : Json A) where
  abbrev parsed : Option A → Result JsonError (Option A)
  parsed none = err JsonError.syntax_error
  parsed (some a) = ok (some a)

  -- `rawData ? JSON.parse(rawData) : null`: an empty text is null too.
  abbrev value_of : Option String → Result JsonError (Option A)
  value_of none = ok none
  value_of (some raw_data) = if str_eq raw_data "" then ok none else parsed (J.parse raw_data)

  -- `get`
  unfoldable pub get : String → ℕ → C.Db → Result JsonError (Option A)
  get key now db = value_of (C.get key now db)

  -- `set`: a time to live of 0 counts as none.
  unfoldable pub set_value : String → A → Option ℕ → ℕ → C.Db → C.Db
  unfolding set
  set_value key value none now db = C.set_forever key (J.stringify value) db
  set_value key value (some zero) now db = C.set_forever key (J.stringify value) db
  set_value key value (some (suc n)) now db = set C key (J.stringify value) (suc n) now db

  -- `del`
  unfoldable pub del : String → C.Db → C.Db
  del key db = C.del key db

  -- Whether a value is still there at a time.
  abbrev pub lives : Option ℕ → ℕ → ℕ → Bool
  lives none now later = true
  lives (some zero) now later = true
  lives (some (suc n)) now later = ltb later (now + suc n * 1000)

  parsed-stringify : (a : A) → value_of (some (J.stringify a)) ≡ ok (some a)
  parsed-stringify a = rw (J.stringify-some a, J.parse-stringify a) refl

  kept :
      (b : Bool) (a : A)
      → value_of (if b then some (J.stringify a) else none) ≡ ok (if b then some a else none)
  kept true a = parsed-stringify a
  kept false a = refl

  -- For JSON as it is documented: what is set under a key, with or without a time to live, is what get gives under the key as long
  -- as it lives, and null from then on, and no other key changes; what is deleted is null.
  pub get-set_value :
      (key other : String) (value : A) (ttl : Option ℕ) (now later : ℕ) (db : C.Db)
      → str_eq key other ≡ false
      → (get key later (set_value key value ttl now db)
          ≡ ok (if lives ttl now later then some value else none))
        × (get other later (set_value key value ttl now db) ≡ get other later db)
        × (get key later (del key (set_value key value ttl now db)) ≡ ok none)
  unfolding get set_value del
  get-set_value key other value none now later db ne = (
    ap value_of (C.set_forever_get key (J.stringify value) later db) ∙ parsed-stringify value,
    ap value_of (C.set_forever_other key (J.stringify value) later db other ne),
    ap value_of (C.del_get key later _),
  )
  get-set_value key other value (some zero) now later db ne = (
    ap value_of (C.set_forever_get key (J.stringify value) later db) ∙ parsed-stringify value,
    ap value_of (C.set_forever_other key (J.stringify value) later db other ne),
    ap value_of (C.del_get key later _),
  )
  get-set_value key other value (some (suc n)) now later db ne = (
    ap value_of (C.set_get key (J.stringify value) (suc n) now later db)
        ∙ kept (ltb later (now + suc n * 1000)) value,
    ap value_of (C.set_other key (J.stringify value) (suc n) now later db other ne),
    ap value_of (C.del_get key later _),
  )

  -- `publish`: the messages that have been published, each with its channel, newest last.
  abbrev pub publish : String → A → List (String × String) → List (String × String)
  publish channel data' messages = messages ++ (channel, J.stringify data') ∷ []
