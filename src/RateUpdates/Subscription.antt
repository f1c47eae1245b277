-- ===== src/RateUpdates/Subscription.antt =====
-- How often a message is handled.
use exchange_watch.Base.{ℕ, ◌≡◌, refl, Bool, List, [], ◌∷◌, if◌then◌else◌, arith}
use exchange_watch.RateUpdates.{RateUpdateSubscriber, new_subscriber, subscribe, unsubscribe}

-- A call, and whether Redis answers it.
pub data Call : Type 0 where
  subscribing unsubscribing : Bool → Call

abbrev pub called : Call → RateUpdateSubscriber → RateUpdateSubscriber
called (Call.subscribing answered) s = subscribe answered s
called (Call.unsubscribing answered) s = unsubscribe answered s

abbrev pub run : List Call → RateUpdateSubscriber → RateUpdateSubscriber
run [] s = s
run (c ∷ cs) s = run cs (called c s)

-- How often the listeners are called with a message of the pattern.
abbrev pub times_handled : RateUpdateSubscriber → ℕ
times_handled s = if s.at_redis then s.listeners else 0

-- The flag says what is so at Redis and of the listeners.
abbrev pub IsValid : RateUpdateSubscriber → Type 0
IsValid s = (s.at_redis ≡ s.is_subscribed) × (s.listeners ≡ (if s.is_subscribed then 1 else 0))

called-IsValid : (c : Call) (s : RateUpdateSubscriber) → IsValid s → IsValid (called c s)
unfolding subscribe unsubscribe
called-IsValid (Call.subscribing answered) s (a, b) = (ground (arith, a, b), ground (arith, a, b))
called-IsValid (Call.unsubscribing answered) s (a, b) = (ground (arith, a, b), ground (arith, a, b))

run-IsValid : (cs : List Call) (s : RateUpdateSubscriber) → IsValid s → IsValid (run cs s)
run-IsValid [] s v = v
run-IsValid (c ∷ cs) s v = run-IsValid cs (called c s) (called-IsValid c s v)

-- After any calls on a new subscriber, answered by Redis or not, a message is handled once while `isSubscribed` is set, however
-- often `subscribe` has been called, and not at all while it is not.
pub handled_once :
    (cs : List Call)
    → times_handled (run cs new_subscriber)
      ≡ (if (run cs new_subscriber).is_subscribed then 1 else 0)
handled_once cs = let (a, b) = run-IsValid cs new_subscriber (refl, refl) in ground (arith, a, b)
