-- ===== src/Runtime/Subscription.antt =====
-- src/runtime/bacnet/cov.rs: the coverage of one subscription. An `Instant` is a number of nanoseconds. The
-- client's answers, the slot's checks and the clock readings of a call are its inputs; the reading after
-- a failed renewal is that of the renewal's end. The dequeue of notifications, the samples and the
-- reconnect are not modelled.
use verdant.Base.{
  ℕ, ◌+◌, ◌-◌, ◌*◌, Bool, true, false, not, ◌&&◌, ◌||◌, leb, ltb, if◌then◌else◌, u64_max,
  saturating_add, Result, ok, err,
}
pub mod Coverage

pub data Loss : Type 0 where
  startup capacity renewal_failed expired reconnect host_resume closed : Loss
  lagged : ℕ → Loss

pub record Covered : Type 0 where
  pub changes : ℕ
  pub last : Loss
  pub revalidation_due : Bool
  pub unobserved_interval : Bool
  pub subscribed : Bool

pub data RemoteOutcome : Type 0 where
  not_attempted uncertain confirmed failed : RemoteOutcome

pub data CovError : Type 0 where
  not_current budget invalid_reply : CovError

-- The lifetime in seconds, the renewal margin in nanoseconds.
pub record FixtureOptions : Type 0 where
  pub lifetime : ℕ
  pub margin : ℕ

pub record Subscription : Type 0 where
  pub options : FixtureOptions
  pub renew_at : ℕ
  pub poll_at : ℕ
  pub expires : ℕ
  pub coverage : Covered
  pub unsubscribe : RemoteOutcome
  pub stopped : Bool

abbrev pub Answer : Type 0
Answer = Result CovError (Unit {0}) × Subscription

unfoldable pub open_subscription : FixtureOptions → ℕ → Subscription
open_subscription options now = record {
  options = options;
  renew_at = now;
  poll_at = now;
  expires = now;
  coverage = record {
    changes = 0;
    last = startup;
    revalidation_due = true;
    unobserved_interval = false;
    subscribed = false;
  };
  unsubscribe = not_attempted;
  stopped = false;
}

unfoldable pub loss : Subscription → Loss → Subscription
loss s reason = record s {
  coverage = record s.coverage {
    changes = saturating_add u64_max s.coverage.changes 1;
    last = reason;
    unobserved_interval = true;
    revalidation_due = true;
  };
}

abbrev pub unsubscribed : Subscription → Subscription
unsubscribed s = record s { coverage = record s.coverage { subscribed = false } }

unfoldable pub expire : Subscription → ℕ → Subscription
unfolding loss
expire s now =
    if s.coverage.subscribed && leb s.expires now then loss (unsubscribed s) expired else s

abbrev pub is_not_attempted : RemoteOutcome → Bool
is_not_attempted not_attempted = true
is_not_attempted _ = false

-- `check`, where `slot` says whether the slot's own check passes.
unfoldable pub is_current : Subscription → Bool → Bool
is_current s slot = not s.stopped && is_not_attempted s.unsubscribe && slot

-- What a subscribe meets: the slot's checks, whether it can receive, when it starts and ends, and
-- whether the device answered.
pub record Attempt : Type 0 where
  pub slot : Bool
  pub receives : Bool
  pub started : ℕ
  pub answered : Bool
  pub slot_after : Bool
  pub finished : ℕ

abbrev pub nanos_per_sec : ℕ
nanos_per_sec = 1_000_000_000

abbrev pub covered : Subscription → Subscription
covered s = record s { coverage = record s.coverage { subscribed = true } }

abbrev pub granted : Subscription → ℕ → Subscription
granted s started = record s {
  expires = started + s.options.lifetime * nanos_per_sec;
  renew_at = started + s.options.lifetime * nanos_per_sec - s.options.margin;
}

unfoldable pub after_grant : Subscription → ℕ → Answer
unfolding loss
after_grant s finished =
    if leb s.expires finished then (err not_current, loss s expired) else (ok tt, covered s)

unfoldable pub after_answer : Subscription → Attempt → Answer
unfolding loss is_current after_grant
after_answer s a =
    if not a.answered
    then (err invalid_reply, loss s renewal_failed)
    else if not (is_current s a.slot_after)
    then (err not_current, s)
    else after_grant (granted s a.started) a.finished

unfoldable pub subscribe : Subscription → Attempt → Answer
unfolding is_current loss after_answer
subscribe s a =
    if not (is_current s a.slot)
    then (err not_current, s)
    else if not a.receives
    then (err budget, loss s capacity)
    else after_answer (record (unsubscribed s) { renew_at = a.started + s.options.margin }) a

-- What a revalidation meets: the slot's checks, whether it can receive, the clock at its three
-- readings, whether the read was answered and whether the answer is of the property.
pub record Poll : Type 0 where
  pub slot : Bool
  pub receives : Bool
  pub began : ℕ
  pub answered : Bool
  pub slot_after : Bool
  pub matches : Bool
  pub finished : ℕ

abbrev pub polled : Subscription → Poll → Answer
unfolding is_current
polled s p =
    if not p.answered
    then (err invalid_reply, record s { poll_at = p.finished + s.options.margin })
    else if not (is_current s p.slot_after)
    then (err not_current, s)
    else if not p.matches
    then (err invalid_reply, s)
    else (
      ok tt,
      record s { coverage = record s.coverage { revalidation_due = false }; poll_at = p.finished },
    )

unfoldable pub revalidate : Subscription → Poll → Answer
unfolding is_current loss polled
revalidate s p =
    if not (is_current s p.slot)
    then (err not_current, s)
    else if not s.coverage.revalidation_due
    then (ok tt, s)
    else if not p.receives
    then (err budget, loss s capacity)
    else if ltb p.began s.poll_at
    then (ok tt, s)
    else polled (record s { poll_at = p.began + s.options.margin }) p

abbrev pub backed_off : Answer → ℕ → Answer
backed_off (ok _, s) now = (ok tt, s)
backed_off (err e, s) now = (err e, record s { renew_at = now + s.options.margin })

abbrev pub both :
    Result CovError (Unit {0}) → Result CovError (Unit {0}) → Result CovError (Unit {0})
both (ok _) second = second
both (err e) second = err e

abbrev pub then_revalidate : Answer → Poll → Answer
unfolding revalidate
then_revalidate (renewal, s) p = (both renewal (revalidate s p).0, (revalidate s p).1)

abbrev pub renewed : Subscription → ℕ → Attempt → Answer
unfolding subscribe
renewed s now a = if leb s.renew_at now then backed_off (subscribe s a) a.finished else (ok tt, s)

unfoldable pub maintain : Subscription → Bool → ℕ → Attempt → Poll → Answer
unfolding is_current expire renewed then_revalidate
maintain s slot now a p =
    if not (is_current s slot)
    then (err not_current, s)
    else then_revalidate (renewed (expire s now) now a) p

unfoldable pub unsubscribe : Subscription → Bool → Subscription
unsubscribe s answered =
    if s.stopped || not (is_not_attempted s.unsubscribe)
    then s
    else record (unsubscribed s) { unsubscribe = if answered then confirmed else failed }
