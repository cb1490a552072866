-- ===== src/Client/Queue.antt =====
-- The queue of user operations in lib/account-abstraction/src/AASigner.ts: `queueUserOpSender` and
-- `sendQueuedUserOps`. A call of the latter is split where it waits for the chain: other calls run
-- in between.
pub mod Filed
pub mod Rounds
pub mod Bundles
pub mod Taken
pub mod Drains
use bounded_spending_account.Prelude.{
  ℕ, ◌+◌, ◌-◌, ◌≡◌, ◌≤◌, Bool, true, false, List, [], ◌∷◌, ◌++◌, Option, none, some, ltb, ◌||◌,
  ◌==◌, if◌then◌else◌,
}
use bounded_spending_account.Solidity.{Address}
use bounded_spending_account.UserOp.{PackedUserOperation}
use bounded_spending_account.Client.{Error, Try, returned, throws}
use bounded_spending_account.Client.Operation.{UserOperation, pack_user_op}

-- `IDLE_TIME`, in milliseconds, and `BUNDLE_SIZE_IMMEDIATE`
abbrev pub idle_time : ℕ
idle_time = 5000

abbrev pub bundle_size_immediate : ℕ
bundle_size_immediate = 3

-- `queue`: the operations of each sender, in the order in which the senders came.
abbrev pub Filing : Type 0
Filing = List (Address × List UserOperation)

-- A counter of JavaScript: `undefined`, `NaN`, or a number. The operators `++` and `--` make `NaN`
-- of what is no number, and every comparison with that is false.
pub data Counter : Type 0 where
  unset nan : Counter
  counted : ℕ → Counter

unfoldable pub increment : Counter → Counter
increment unset = nan
increment nan = nan
increment (counted n) = counted (n + 1)

unfoldable pub decrement : Counter → Counter
decrement unset = nan
decrement nan = nan
decrement (counted n) = counted (n - 1)

-- `counter < bound`
unfoldable pub is_below : Counter → ℕ → Bool
is_below unset bound = false
is_below nan bound = false
is_below (counted n) bound = ltb n bound

-- The fields of `QueueSendUserOp`; `last_queue_update` is `none` while it is undefined, and `interval` is that of the timer which runs.
pub record Queue : Type 0 where
  pub last_queue_update : Option ℕ
  pub queue_size : Counter
  pub queue : Filing
  pub interval : Option ℕ

-- `queue[sender].push(op)`, after `queue[sender] = []` for a new sender
unfoldable pub file : Address → UserOperation → Filing → Filing
file sender op [] = (sender, op ∷ []) ∷ []
file sender op ((other, ops) ∷ rest) =
    if other == sender then (other, ops ++ (op ∷ [])) ∷ rest else (other, ops) ∷ file sender op rest

-- The function that `queueUserOpSender` returns, at the time `now`.
unfoldable pub enqueue : ℕ → UserOperation → Queue → Queue
unfolding file increment
enqueue now op q = record q {
  queue = file op.sender op q.queue;
  last_queue_update = some now;
  queue_size = increment q.queue_size;
}

-- `cancelInterval` and `setInterval`
unfoldable pub cancel_interval : Queue → Queue
cancel_interval q = record q { interval = none }

unfoldable pub set_interval : ℕ → Queue → Queue
unfolding cancel_interval
set_interval interval_ms q = record (cancel_interval q) { interval = some interval_ms }

-- What `queueUserOpSender` makes, for its last argument. It sets neither `lastQueueUpdate` nor
-- `queueSize`.
unfoldable pub queue_user_op_sender : Option ℕ → Queue
unfolding set_interval
queue_user_op_sender interval_ms =
    let empty : Queue = record {
      last_queue_update = none;
      queue_size = unset;
      queue = [];
      interval = none;
    } in
    elim interval_ms [ none ↦ empty | some ms ↦ set_interval ms empty ]

-- What the loop over the senders has done: the packed operations, what is left, and the error of
-- `packUserOp` that has ended it. That operation has been shifted already, and is lost, but is not
-- subtracted from `queueSize`.
pub record Bundle : Type 0 where
  pub ops : List PackedUserOperation
  pub queue : Filing
  pub queue_size : Counter
  pub error : Option Error

-- `Object.keys(queue).forEach(…)`
unfoldable pub take_bundle : Filing → Counter → Bundle
unfolding decrement
take_bundle [] size = record { ops = []; queue = []; queue_size = size; error = none }
take_bundle ((sender, []) ∷ rest) size =
    let taken = take_bundle rest size in record taken { queue = (sender, []) ∷ taken.queue }
take_bundle ((sender, op ∷ ops) ∷ rest) size =
    let taken = take_bundle rest (decrement size) in
    elim (pack_user_op op) [
      | throws e ↦ record {
        ops = [];
        queue = (sender, ops) ∷ rest;
        queue_size = size;
        error = some e;
      }
      | returned packed ↦ record taken {
        ops = packed ∷ taken.ops;
        queue = (sender, ops) ∷ taken.queue;
      }
    ]

-- The queue, and the module's variable `sending`.
pub record Sender : Type 0 where
  pub sending : Bool
  pub queue : Queue

-- How a call of `sendQueuedUserOps` goes until it waits for the chain: it returns early, it throws,
-- or it sends a bundle.
pub data Start : Type 0 where
  sending_in_progress too_small_or_too_young no_ops : Start
  failed : Error → Start
  sends : List PackedUserOperation → Start

-- After the loop; `finally` resets `sending` on every path but the one that sends.
unfoldable pub start_bundle : Bundle → Queue → Sender × Start
start_bundle taken q =
    let left = record q { queue = taken.queue; queue_size = taken.queue_size } in
    elim taken.error [
      | some e ↦ (record { sending = false; queue = left }, failed e)
      | none ↦ elim taken.ops [
        | [] ↦ (record { sending = false; queue = left }, no_ops)
        | op ∷ ops ↦ (record { sending = true; queue = left }, sends (op ∷ ops))
      ]
    ]

-- `lastQueueUpdate + IDLE_TIME > Date.now()`
unfoldable pub is_young : ℕ → Option ℕ → Bool
is_young now none = false
is_young now (some updated) = ltb now (updated + idle_time)

-- `sendQueuedUserOps` at the time `now`, until it waits.
unfoldable pub start_sending : ℕ → Sender → Sender × Start
unfolding start_bundle take_bundle is_below is_young
start_sending now s =
    if s.sending
    then (s, sending_in_progress)
    else if is_below s.queue.queue_size bundle_size_immediate
        || is_young now s.queue.last_queue_update
    then (record s { sending = false }, too_small_or_too_young)
    else start_bundle (take_bundle s.queue.queue s.queue.queue_size) s.queue

-- `finally`, once `handleOps` is mined or has failed.
unfoldable pub finish_sending : Sender → Sender
finish_sending s = record s { sending = false }

-- The states that the sender can reach, and the time.
pub data Running : ℕ → Sender → Type 0 where
  started :
      (now : ℕ) (interval_ms : Option ℕ)
      → Running now (record { sending = false; queue = queue_user_op_sender interval_ms })
  later : {now : ℕ} {s : Sender} (now' : ℕ) → now ≤ now' → Running now s → Running now' s
  enqueued :
      {now : ℕ} {s : Sender} (op : UserOperation)
      → Running now s
      → Running now (record s { queue = enqueue now op s.queue })
  timed :
      {now : ℕ} {s : Sender} (interval_ms : ℕ)
      → Running now s
      → Running now (record s { queue = set_interval interval_ms s.queue })
  cancelled :
      {now : ℕ} {s : Sender}
      → Running now s
      → Running now (record s { queue = cancel_interval s.queue })
  began :
      {now : ℕ} {s s' : Sender} (start : Start)
      → Running now s
      → start_sending now s ≡ (s', start)
      → Running now s'
  finished :
      {now : ℕ} {s : Sender} → s.sending ≡ true → Running now s → Running now (finish_sending s)
