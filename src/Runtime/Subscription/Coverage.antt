-- ===== src/Runtime/Subscription/Coverage.antt =====
-- Coverage along a subscription's calls (src/runtime/bacnet/cov.rs).
use verdant.Base.{ℕ, ◌+◌, ◌*◌, ◌<◌, ◌≡◌, ◌↔◌, Bool, true, List, [], ◌∷◌, arith, ok, err, is_ok}
use verdant.Runtime.Subscription.{
  Subscription, Attempt, Poll, Answer, loss, expire, subscribe, after_grant, after_answer,
  nanos_per_sec, revalidate, polled, backed_off, renewed, then_revalidate, maintain, unsubscribe,
}

pub data Event : Type 0 where
  subscribes : Attempt → Event
  expires_at : ℕ → Event
  revalidates : Poll → Event
  maintains : Bool → ℕ → Attempt → Poll → Event
  unsubscribes : Bool → Event

unfoldable pub step : Subscription → Event → Subscription
step s (subscribes a) = (subscribe s a).1
step s (expires_at now) = expire s now
step s (revalidates p) = (revalidate s p).1
step s (maintains slot now a p) = (maintain s slot now a p).1
step s (unsubscribes answered) = unsubscribe s answered

unfoldable pub run : Subscription → List Event → Subscription
run s [] = s
run s (e ∷ es) = run (step s e) es

abbrev pub HasGap : Subscription → Type 0
HasGap s = s.coverage.unobserved_interval ≡ true

subscribe-HasGap : (s : Subscription) (a : Attempt) → HasGap s → HasGap (subscribe s a).1
unfolding subscribe after_answer after_grant loss
subscribe-HasGap s a h = ground arith

expire-HasGap : (s : Subscription) (now : ℕ) → HasGap s → HasGap (expire s now)
unfolding expire loss
expire-HasGap s now h = ground arith

revalidate-HasGap : (s : Subscription) (p : Poll) → HasGap s → HasGap (revalidate s p).1
unfolding revalidate polled loss
revalidate-HasGap s p h = ground arith

backed_off-HasGap : (r : Answer) (now : ℕ) → HasGap r.1 → HasGap (backed_off r now).1
backed_off-HasGap (ok x, s) now h = h
backed_off-HasGap (err e, s) now h = h

renewed-HasGap : (s : Subscription) (now : ℕ) (a : Attempt) → HasGap s → HasGap (renewed s now a).1
unfolding renewed
renewed-HasGap s now a h =
    ground (arith, backed_off-HasGap (subscribe s a) a.finished (subscribe-HasGap s a h))

maintain-HasGap :
    (s : Subscription) (slot : Bool) (now : ℕ) (a : Attempt) (p : Poll)
    → HasGap s
    → HasGap (maintain s slot now a p).1
unfolding maintain then_revalidate
maintain-HasGap s slot now a p h = ground (
  arith,
  revalidate-HasGap (renewed (expire s now) now a).1 p
      (renewed-HasGap (expire s now) now a (expire-HasGap s now h)),
)

unsubscribe-HasGap :
    (s : Subscription) (answered : Bool) → HasGap s → HasGap (unsubscribe s answered)
unfolding unsubscribe
unsubscribe-HasGap s answered h = ground arith

-- A gap is never filled: once an interval went unobserved, no sequence of renewals, expiries, fresh reads,
-- maintenance turns and unsubscribes clears that fact.
pub run-HasGap :
    (s : Subscription) (es : List Event)
    → s.coverage.unobserved_interval ≡ true
    → (run s es).coverage.unobserved_interval ≡ true
unfolding run step
run-HasGap s [] h = h
run-HasGap s (subscribes a ∷ es) h = run-HasGap (subscribe s a).1 es (subscribe-HasGap s a h)
run-HasGap s (expires_at now ∷ es) h = run-HasGap (expire s now) es (expire-HasGap s now h)
run-HasGap s (revalidates p ∷ es) h = run-HasGap (revalidate s p).1 es (revalidate-HasGap s p h)
run-HasGap s (maintains slot now a p ∷ es) h =
    run-HasGap (maintain s slot now a p).1 es (maintain-HasGap s slot now a p h)
run-HasGap s (unsubscribes b ∷ es) h = run-HasGap (unsubscribe s b) es (unsubscribe-HasGap s b h)

-- Coverage is claimed after the expiry check at `now` exactly if it was claimed and its deadline is later
-- than `now`.
pub expire-subscribed :
    (s : Subscription) (now : ℕ)
    → (((expire s now).coverage.subscribed ≡ true)
        ↔ ((s.coverage.subscribed ≡ true) × (now < s.expires)))
unfolding expire loss
expire-subscribed s now = ((λ h. (ground arith, ground arith)), (λ h. ground arith))

-- A subscribe that succeeds covers from its request on for the lifetime that it asked for, and it
-- ended before that.
pub subscribe-covers :
    (s : Subscription) (a : Attempt)
    → is_ok (subscribe s a).0 ≡ true
    → ((subscribe s a).1.coverage.subscribed ≡ true)
      × ((subscribe s a).1.expires ≡ a.started + s.options.lifetime * nanos_per_sec)
      × (a.finished < (subscribe s a).1.expires)
unfolding subscribe after_answer after_grant
subscribe-covers s a h = (ground arith, ground arith, ground arith)
