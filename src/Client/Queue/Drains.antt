-- ===== src/Client/Queue/Drains.antt =====
-- How `sendQueuedUserOps` of lib/account-abstraction/src/AASigner.ts empties a queue to which nothing
-- is added, and in which order.
use bounded_spending_account.Prelude.{
  ℕ, ◌≤◌, ◌≡◌, false, refl, List, [], ◌∷◌, ◌++◌, Option, none, some, length, arith, sym, subst, inl,
  inr, Bool-cases,
}
use bounded_spending_account.Solidity.{Address}
use bounded_spending_account.UserOp.{PackedUserOperation}
use bounded_spending_account.Client.Queue.{
  Queue, Bundle, take_bundle, Sender, Start, sending_in_progress, too_small_or_too_young, no_ops,
  failed, sends, start_bundle, start_sending, finish_sending, is_young, Running, later, began,
  finished,
}
use bounded_spending_account.Client.Queue.Filed.{waiting}
use bounded_spending_account.Client.Queue.Bundles.{
  start_bundle-queue, Running-queue-IsOrderly, age_alone_decides,
}
use bounded_spending_account.Client.Queue.Taken.{
  sent_by, queued, PackTo, IsPackable, IsWithin, IsWithin-waiting, take_bundle-IsRound,
  sent_by-append, take_bundle-PackTo, IsWithin-PackTo,
}

-- The bundle that a call sends.
unfoldable pub sent : Start → List PackedUserOperation
sent sending_in_progress = []
sent too_small_or_too_young = []
sent no_ops = []
sent (failed e) = []
sent (sends ops) = ops

-- Calls of `sendQueuedUserOps` at these times, each of which is over before the next one, and the
-- operations that they send.
unfoldable pub push_at : List ℕ → Sender → Sender × List PackedUserOperation
push_at [] s = (s, [])
push_at (now ∷ times) s =
    let started = start_sending now s in
    let rest = push_at times (finish_sending started.0) in (rest.0, sent started.1 ++ rest.1)

-- Times that never go back.
abbrev pub Ascend : ℕ → List ℕ → Type 0
Ascend now [] = Unit
Ascend now (t ∷ times) = (now ≤ t) × Ascend t times

-- A call that finds no other under way, in a queue that is not young, where every operation can be
-- packed.
record IsPushed (s : Sender) (begun : Sender × Start) : Type 0 where
  queue : begun.0.queue.queue ≡ (take_bundle s.queue.queue s.queue.queue_size).queue
  updated : begun.0.queue.last_queue_update ≡ s.queue.last_queue_update
  ops : sent begun.1 ≡ (take_bundle s.queue.queue s.queue.queue_size).ops

start_bundle-sent : (b : Bundle) (q : Queue) → b.error ≡ none → sent (start_bundle b q).1 ≡ b.ops
unfolding start_bundle sent
start_bundle-sent b q h = ground arith

start_sending-IsPushed :
    {now : ℕ} {s : Sender}
    → Running now s
    → s.sending ≡ false
    → is_young now s.queue.last_queue_update ≡ false
    → IsPackable s.queue.queue
    → IsPushed s (start_sending now s)
start_sending-IsPushed {now} {s} r idle old packable =
    let q = s.queue in
    let b = take_bundle q.queue q.queue_size in
    let decided = age_alone_decides r idle in
    let starts : start_sending now s ≡ start_bundle b q = rw old at decided in
    let (same, _, updated) = start_bundle-queue b q in
    rw starts (record {
      queue = same;
      updated = updated;
      ops = start_bundle-sent b q (take_bundle-IsRound q.queue q.queue_size packable).whole;
    })

finish_sending-Running : {now : ℕ} {s : Sender} → Running now s → Running now (finish_sending s)
unfolding finish_sending
finish_sending-Running {now} {s} r = elim (Bool-cases s.sending) [
  | inl busy ↦ finished busy r
  | inr idle ↦ subst (λ x. Running now (record { sending = x; queue = s.queue })) idle r
]

is_young-later :
    (now now' : ℕ) (updated : Option ℕ)
    → now ≤ now'
    → is_young now updated ≡ false
    → is_young now' updated ≡ false
unfolding is_young
is_young-later now now' none l h = refl
is_young-later now now' (some at) l h = ground arith

-- From a moment on at which no bundle is under way and no operation has come for 5 seconds, let no
-- operation come, let every one that waits be one that can be packed, and let each call of
-- `sendQueuedUserOps` be over before the next one. Then as many calls as the longest list of one
-- sender has operations empty the queue, and they send the operations of each sender, all of them
-- once, in the order in which they came.
pub quiet_queue_is_sent :
    (times : List ℕ) {now : ℕ} {s : Sender}
    → Running now s
    → s.sending ≡ false
    → is_young now s.queue.last_queue_update ≡ false
    → Ascend now times
    → IsPackable s.queue.queue
    → IsWithin (length times) s.queue.queue
    → (waiting (push_at times s).0.queue.queue ≡ 0)
      × ((t : Address) → PackTo (queued t s.queue.queue) (sent_by t (push_at times s).1))
unfolding push_at finish_sending sent_by
quiet_queue_is_sent [] {now} {s} r idle old ascend packable within =
    (IsWithin-waiting s.queue.queue within, λ t. IsWithin-PackTo t s.queue.queue within)
quiet_queue_is_sent (at ∷ times) {now} {s} r idle old (later_at, ascend) packable within =
    let q = s.queue.queue in
    let size = s.queue.queue_size in
    let at_r = later at later_at r in
    let at_old = is_young-later now at s.queue.last_queue_update later_at old in
    let i = start_sending-IsPushed at_r idle at_old packable in
    let round = take_bundle-IsRound q size packable in
    let next_r = finish_sending-Running (began (start_sending at s).1 at_r refl) in
    let (empty, in_order) =
      quiet_queue_is_sent times next_r refl (rw i.updated at_old) ascend
        (subst IsPackable (sym i.queue) round.packable)
        (subst (λ x. IsWithin (length times) x) (sym i.queue)
          (round.within (length times) within)) in
    (
      empty,
      λ t.
          rw (sent_by-append, i.ops)
            (take_bundle-PackTo t q size _ (Running-queue-IsOrderly r).filed packable
              (rw i.queue at in_order t)),
    )
