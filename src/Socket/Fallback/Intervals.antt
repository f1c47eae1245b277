-- ===== src/Socket/Fallback/Intervals.antt =====
-- The intervals of the stand-in: what connects and disconnects leave running.
use exchange_watch.Base.{
  ℕ, zero, suc, ◌+◌, ◌<◌, ◌≡◌, refl, ap, ◌∙◌, true, false, not, String, List, [], ◌∷◌, filter, any,
  All, length, ◌==◌, arith, map,
}
use exchange_watch.Numbers.{Numbers}
use exchange_watch.Socket.CoinApi.{LatestRateEvent}
use exchange_watch.Socket.Fallback.{
  StandIn, connect, disconnect, fire, fluctuate, new_rates, emit_all,
}

module _ (N : Numbers) where
  -- Every interval that runs has a number that has been given.
  abbrev pub Numbered : StandIn N → Type 0
  Numbered m = All (λ i. i < m.made) m.running

  filter-Numbered :
      (n : ℕ) (ids : List ℕ) → All (λ i. i < n) ids → filter (λ i. not (i == n)) ids ≡ ids
  filter-Numbered n [] a = refl
  filter-Numbered n (i ∷ ids) a = ground (arith, a.0, filter-Numbered n ids a.1)

  Numbered-later : (n : ℕ) (ids : List ℕ) → All (λ i. i < n) ids → All (λ i. i < suc n) ids
  Numbered-later n [] a = tt
  Numbered-later n (i ∷ ids) a = (omega (arith, a.0), Numbered-later n ids a.1)

  connect-Numbered : (m : StandIn N) → Numbered m → Numbered (connect N m)
  unfolding connect
  connect-Numbered m a = (omega arith, Numbered-later m.made m.running a)

  -- So many calls of connect.
  abbrev pub connects : ℕ → StandIn N → StandIn N
  connects zero m = m
  connects (suc n) m = connect N (connects n m)

  connects-Numbered : (n : ℕ) (m : StandIn N) → Numbered m → Numbered (connects n m)
  connects-Numbered zero m a = a
  connects-Numbered (suc n) m a = connect-Numbered (connects n m) (connects-Numbered n m a)

  length-connects : (n : ℕ) (m : StandIn N) → length (connects n m).running ≡ n + length m.running
  unfolding connect
  length-connects zero m = omega arith
  length-connects (suc n) m = omega (arith, length-connects n m)

  -- The last interval is the one that disconnect cancels.
  disconnect-connect :
      (m : StandIn N) → Numbered m → (disconnect N (connect N m)).running ≡ m.running
  unfolding disconnect connect
  disconnect-connect m a = ground (arith, filter-Numbered m.made m.running a)

  disconnect-disconnect : (m : StandIn N) → disconnect N (disconnect N m) ≡ disconnect N m
  unfolding disconnect
  disconnect-disconnect m = refl

  -- A bug: after n + 1 calls of connect in a row, disconnect cancels the last interval alone, so that n more run than before the
  -- calls, and a second disconnect cancels none.
  pub disconnect-connects :
      (n : ℕ) (m : StandIn N)
      → Numbered m
      → (length (disconnect N (connects (suc n) m)).running ≡ n + length m.running)
        × (disconnect N (disconnect N (connects (suc n) m)) ≡ disconnect N (connects (suc n) m))
  disconnect-connects n m a = (
    ap length (disconnect-connect (connects n m) (connects-Numbered n m a)) ∙ length-connects n m,
    disconnect-disconnect (connects (suc n) m),
  )

  length-emit_all :
      (now : ℕ) (rates : List (String × N.Num)) (emitted : List (LatestRateEvent N.Num))
      → length (emit_all N now rates emitted) ≡ length rates + length emitted
  length-emit_all now [] emitted = omega arith
  length-emit_all now ((code, rate) ∷ rest) emitted = omega (arith, length-emit_all now rest _)

  codes-new_rates :
      (random : ℕ → N.Num) (i : ℕ) (rates : List (String × N.Num))
      → map (λ (e : String × N.Num). e.0) (new_rates N random i rates)
        ≡ map (λ (e : String × N.Num). e.0) rates
  codes-new_rates random i [] = refl
  codes-new_rates random i ((code, rate) ∷ rest) =
      ap (λ codes. code ∷ codes) (codes-new_rates random (suc i) rest)

  length-new_rates :
      (random : ℕ → N.Num) (i : ℕ) (rates : List (String × N.Num))
      → length (new_rates N random i rates) ≡ length rates
  length-new_rates random i [] = refl
  length-new_rates random i ((code, rate) ∷ rest) = ap suc (length-new_rates random (suc i) rest)

  -- An interval that runs emits one rate for each currency of the stand-in when it fires, and another one none.
  pub fire-emitted :
      (id now : ℕ) (random : ℕ → N.Num) (m : StandIn N)
      → (any (◌==◌ id) m.running ≡ true
          → (length (fire N id now random m).emitted ≡ length m.initial_rates + length m.emitted)
            × (map (λ (e : String × N.Num). e.0) (fire N id now random m).initial_rates
                ≡ map (λ (e : String × N.Num). e.0) m.initial_rates))
        × (any (◌==◌ id) m.running ≡ false → fire N id now random m ≡ m)
  unfolding fire fluctuate
  fire-emitted id now random m = (
    (λ h. rw h (
      length-emit_all now (new_rates N random 0 m.initial_rates) m.emitted
          ∙ ap (λ n. n + length m.emitted) (length-new_rates random 0 m.initial_rates),
      codes-new_rates random 0 m.initial_rates,
    )),
    (λ h. rw h refl),
  )
