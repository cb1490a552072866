-- ===== src/Client/Queue/Bundles.antt =====
-- The bundles that `sendQueuedUserOps` of lib/account-abstraction/src/AASigner.ts sends.
use bounded_spending_account.Prelude.{
  ℕ, if◌then◌else◌, ◌≡◌, false, refl, none, some, arith, ap, sym, ◌∙◌, subst, inl, inr, Bool-cases,
}
use bounded_spending_account.Client.Queue.{
  Counter, unset, nan, counted, increment, is_below, is_young, Queue, enqueue, cancel_interval,
  set_interval, queue_user_op_sender, Bundle, take_bundle, Sender, too_small_or_too_young,
  start_bundle, start_sending, finish_sending, bundle_size_immediate, Running, started, later,
  enqueued, timed, cancelled, began, finished,
}
use bounded_spending_account.Client.Queue.Filed.{IsFiled, waiting, file-IsFiled}
use bounded_spending_account.Client.Queue.Rounds.{
  IsUnknown, take_bundle-IsFiled, take_bundle-IsTaken, take_bundle-IsUnknown,
}

-- The queue is in order: every operation stands under its sender, no sender twice; before the
-- first operation nothing waits; and `queueSize` is no number.
pub record IsOrderly (s : Sender) : Type 0 where
  pub filed : IsFiled s.queue.queue
  pub fresh : s.queue.last_queue_update ≡ none → waiting s.queue.queue ≡ 0
  pub unknown : IsUnknown s.queue.queue_size

pub start_bundle-queue :
    (b : Bundle) (q : Queue)
    → ((start_bundle b q).0.queue.queue ≡ b.queue)
      × ((start_bundle b q).0.queue.queue_size ≡ b.queue_size)
      × ((start_bundle b q).0.queue.last_queue_update ≡ q.last_queue_update)
unfolding start_bundle
start_bundle-queue b q = ground arith

IsUnknown-is_below : (size : Counter) (bound : ℕ) → IsUnknown size → is_below size bound ≡ false
unfolding is_below
IsUnknown-is_below unset bound h = refl
IsUnknown-is_below nan bound h = refl
IsUnknown-is_below (counted n) bound h = absurd h

start_sending-IsOrderly : (now : ℕ) (s : Sender) → IsOrderly s → IsOrderly (start_sending now s).0
unfolding start_sending
start_sending-IsOrderly now s i =
    let b = take_bundle s.queue.queue s.queue.queue_size in
    let (same, size, updated) = start_bundle-queue b s.queue in
    let t = take_bundle-IsTaken s.queue.queue s.queue.queue_size in
    let bundled : IsOrderly (start_bundle b s.queue).0 = record {
      filed =
          subst IsFiled (sym same) (take_bundle-IsFiled s.queue.queue s.queue.queue_size i.filed).0;
      fresh = λ n. rw same (omega (arith, t.kept, i.fresh (sym updated ∙ n)));
      unknown =
          subst IsUnknown (sym size)
            (take_bundle-IsUnknown s.queue.queue s.queue.queue_size i.unknown);
    } in
    elim (Bool-cases s.sending) [
      | inl busy ↦ rw busy (record { filed = i.filed; fresh = i.fresh; unknown = i.unknown })
      | inr idle ↦
          let small = IsUnknown-is_below s.queue.queue_size bundle_size_immediate i.unknown in
          elim (Bool-cases (is_young now s.queue.last_queue_update)) [
            | inl young ↦
                rw (idle, small, young)
                  (record { filed = i.filed; fresh = i.fresh; unknown = i.unknown })
            | inr old ↦ rw (idle, small, old) bundled
          ]
    ]

increment-IsUnknown : (size : Counter) → IsUnknown size → IsUnknown (increment size)
unfolding increment
increment-IsUnknown unset h = tt
increment-IsUnknown nan h = tt
increment-IsUnknown (counted n) h = h

pub Running-queue-IsOrderly : {now : ℕ} {s : Sender} → Running now s → IsOrderly s
unfolding queue_user_op_sender set_interval cancel_interval enqueue finish_sending waiting
Running-queue-IsOrderly (started now none) = record { filed = tt; fresh = λ _. refl; unknown = tt }
Running-queue-IsOrderly (started now (some ms)) = record {
  filed = tt;
  fresh = λ _. refl;
  unknown = tt;
}
Running-queue-IsOrderly (later now' h r) = Running-queue-IsOrderly r
Running-queue-IsOrderly (enqueued {s = s} op r) =
    let i = Running-queue-IsOrderly r in
    record {
      filed = file-IsFiled op.sender op s.queue.queue refl i.filed;
      fresh = λ n. absurd (cc n);
      unknown = increment-IsUnknown s.queue.queue_size i.unknown;
    }
Running-queue-IsOrderly (timed ms r) =
    let i = Running-queue-IsOrderly r in
    record { filed = i.filed; fresh = i.fresh; unknown = i.unknown }
Running-queue-IsOrderly (cancelled r) =
    let i = Running-queue-IsOrderly r in
    record { filed = i.filed; fresh = i.fresh; unknown = i.unknown }
Running-queue-IsOrderly (began {now = now} {s = s} start r e) =
    subst IsOrderly (ap (λ x. x.0) e) (start_sending-IsOrderly now s (Running-queue-IsOrderly r))
Running-queue-IsOrderly (finished busy r) =
    let i = Running-queue-IsOrderly r in
    record { filed = i.filed; fresh = i.fresh; unknown = i.unknown }

-- A running sender that is not sending waits exactly if the last operation came less than 5 seconds
-- ago, and else takes a bundle, whatever the number of operations: since `queueSize` is never a
-- number, the test for 3 operations has no effect.
pub age_alone_decides :
    {now : ℕ} {s : Sender}
    → Running now s
    → s.sending ≡ false
    → start_sending now s ≡ (
        if is_young now s.queue.last_queue_update
        then (s, too_small_or_too_young)
        else start_bundle (take_bundle s.queue.queue s.queue.queue_size) s.queue)
unfolding start_sending
age_alone_decides {now} {s} r idle =
    let small =
      IsUnknown-is_below s.queue.queue_size bundle_size_immediate
        (Running-queue-IsOrderly r).unknown in
    ground arith
