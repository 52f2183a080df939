-- ===== src/Events/Subscription.antt =====
-- Subscribing and unsubscribing in src/ttasks/_events.py.
use ttasks.Common.{
  ℕ, ◌+◌, ◌-◌, ◌≡◌, refl, true, false, List, [], ◌∷◌, ◌++◌, elem, arith, ◌==◌, if◌then◌else◌, suc,
}
use ttasks.Common.Values.{typed}
use ttasks.Errors.{Result, ok}
use ttasks.Events.{EventBus, subscribe, unsubscribe, subscribed, remove}

-- How often a subscriber is registered.
pub count : ℕ → List ℕ → ℕ
count k [] = 0
count k (j ∷ js) = if k == j then suc (count k js) else count k js

count-append : (k : ℕ) (xs ys : List ℕ) → count k (xs ++ ys) ≡ count k xs + count k ys
unfolding count
count-append k [] ys = omega arith
count-append k (x ∷ xs) ys = ground (arith, count-append k xs ys)

count-remove :
    (k j : ℕ) (xs : List ℕ)
    → count j (remove k xs) ≡ (if j == k then count j xs - 1 else count j xs)
unfolding count remove
count-remove k j [] = ground arith
count-remove k j (x ∷ xs) = ground (arith, count-remove k j xs)

count_absent : (k : ℕ) (xs : List ℕ) → elem k xs ≡ false → count k xs ≡ 0
unfolding count
count_absent k [] h = refl
count_absent k (x ∷ xs) h = ground (arith, count_absent k xs)

-- `unsubscribe` takes away one registration of its own subscriber, if it has one, and none of any
-- other. So a second call is harmless only where the subscriber was registered no more than once.
pub count-unsubscribe :
    (bus : EventBus) (s k : ℕ)
    → count k (unsubscribe bus s).subscribers
      ≡ (if k == s then count k bus.subscribers - 1 else count k bus.subscribers)
unfolding unsubscribe
count-unsubscribe bus s k =
    ground (arith, count-remove s k bus.subscribers, count_absent s bus.subscribers)

count_one : (k : ℕ) → count k (k ∷ []) ≡ 1
unfolding count
count_one k = ground arith

-- When a subscriber that is registered already subscribes once more, two calls of the callback that
-- this returns leave it registered once less than before.
pub unsubscribe_twice :
    (bus entered : EventBus) (s : ℕ)
    → subscribe bus (typed s) ≡ ok entered
    → count s (unsubscribe (unsubscribe entered s) s).subscribers ≡ count s bus.subscribers - 1
unfolding subscribe
unsubscribe_twice bus entered s h = ground (
  arith,
  count-unsubscribe entered s s,
  count-unsubscribe (unsubscribe entered s) s s,
  count-append s bus.subscribers (s ∷ []),
  count_one s,
)

elem-snoc : (k : ℕ) (xs : List ℕ) → elem k (xs ++ k ∷ []) ≡ true
elem-snoc k [] = ground arith
elem-snoc k (x ∷ xs) = ground (arith, elem-snoc k xs)

remove-snoc : (k : ℕ) (xs : List ℕ) → elem k xs ≡ false → remove k (xs ++ k ∷ []) ≡ xs
unfolding remove
remove-snoc k [] h = ground arith
remove-snoc k (x ∷ xs) h = ground (arith, remove-snoc k xs)

-- A `with` block over a subscriber that was not registered, and whose body leaves the subscribers
-- as it finds them, ends with the subscribers from before and with what its body returns or raises.
pub subscribed_lem {ℓ} :
    {A : Type ℓ} (bus : EventBus) (s : ℕ) (body : EventBus → Result A × EventBus)
    → elem s bus.subscribers ≡ false
    → ((b : EventBus) → (body b).1.subscribers ≡ b.subscribers)
    → ((subscribed bus (typed s) body).1.subscribers ≡ bus.subscribers)
      × ((subscribed bus (typed s) body).0
          ≡ (body (record bus { subscribers = bus.subscribers ++ s ∷ [] })).0)
unfolding subscribed
subscribed_lem bus s body new keeps =
    let entered = record bus { subscribers = bus.subscribers ++ s ∷ [] } in
    (
      ground (arith, keeps entered, elem-snoc s bus.subscribers, remove-snoc s bus.subscribers),
      refl,
    )
