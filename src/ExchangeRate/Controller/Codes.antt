-- ===== src/ExchangeRate/Controller/Codes.antt =====
-- The currency codes of a request: what the check accepts.

use exchange_watch.Base.{
  ◌≡◌, refl, Bool, ◌&&◌, String, str_eq, eq_iff, List, [], ◌∷◌, map, ok, any, Bool-cases, inl, inr,
  ◌==◌, arith,
}
use exchange_watch.Strings.{split}
use exchange_watch.Requests.{
  Value, is_not_empty, matches_krw, every, is_code, remove_spaces, utf16_length, is_valid_codes,
  is_valid_currency_code,
}
use exchange_watch.ExchangeRate.Controller.{transform_codes, accepts_rates}

-- What Unicode documents of capitals: a text in capitals stays as it is, and no white space arises.
pub record Capitals (to_upper_case : String → String) : Type 0 where
  pub idem : (s : String) → to_upper_case (to_upper_case s) ≡ to_upper_case s
  pub clean :
      (s : String)
      → remove_spaces (to_upper_case (remove_spaces s)) ≡ to_upper_case (remove_spaces s)

module _ (to_upper_case : String → String) (codes : List String) where
  -- One of the codes, as it is written there.
  abbrev pub is_iso : String → Bool
  is_iso s = utf16_length s == 3 && any (str_eq s) codes

  transformed-is_iso :
      (capitals : Capitals to_upper_case) (pieces : List String)
      → every
          (is_code to_upper_case codes)
          (map remove_spaces (map (λ e. to_upper_case (remove_spaces e)) pieces))
        ≡ every is_iso (map (λ e. to_upper_case (remove_spaces e)) pieces)
  transformed-is_iso capitals [] = refl
  transformed-is_iso capitals (p ∷ pieces) =
      rw (capitals.clean p, capitals.idem (remove_spaces p), transformed-is_iso capitals pieces)
        refl

  not_empty-krw : (base : Value) → (is_not_empty base && matches_krw base) ≡ matches_krw base
  not_empty-krw Value.missing = refl
  not_empty-krw (Value.texts ts) = refl
  not_empty-krw (Value.text t) = elim (Bool-cases (str_eq t "KRW")) [
    | inl h ↦ let same : t ≡ "KRW" = (eq_iff t "KRW").0 h in rw same refl
    | inr h ↦ ground (arith, h)
  ]

  accepted-split :
      (capitals : Capitals to_upper_case) (base : Value) (pieces : List String)
      → accepts_rates to_upper_case codes base (map (λ e. to_upper_case (remove_spaces e)) pieces)
        ≡ (matches_krw base && every is_iso (map (λ e. to_upper_case (remove_spaces e)) pieces))
  unfolding accepts_rates is_valid_currency_code is_valid_codes
  accepted-split capitals base pieces =
      ground (arith, transformed-is_iso capitals pieces, not_empty-krw base)

  -- With capitals as Unicode has them: the request for the current rates is accepted exactly if its base is KRW and each code that
  -- its parameter is cut into, in capitals and without white space, is three units long and a code of ISO 4217.
  pub accepts_rates-is_iso :
      (capitals : Capitals to_upper_case) (base value : Value) (targets : List String)
      → transform_codes to_upper_case codes value ≡ ok targets
      → accepts_rates to_upper_case codes base targets ≡ (matches_krw base && every is_iso targets)
  unfolding transform_codes
  accepts_rates-is_iso capitals base Value.missing targets e =
      let same : [] ≡ targets = cc in rw (← same) (accepted-split capitals base [])
  accepts_rates-is_iso capitals base (Value.text s) targets e =
      let same : map (λ p. to_upper_case (remove_spaces p)) (split "," s) ≡ targets = cc in
      rw (← same) (accepted-split capitals base (split "," s))
  accepts_rates-is_iso capitals base (Value.texts ts) targets e = cc
