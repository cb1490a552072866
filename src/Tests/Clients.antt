-- ===== src/Tests/Clients.antt =====
-- Tests of the TypeScript tooling in lib/account-abstraction.
use bounded_spending_account.Prelude.{
  if◌then◌else◌, ◌≡◌, ◌≢◌, ◌≤◌, ◌+◌, ◌*◌, ◌^◌, refl, arith, true, false, length, ◌++◌, [], ◌∷◌,
  none, some, replicate,
}
use bounded_spending_account.Solidity.{Address}
use bounded_spending_account.Solidity.Bytes.{Bytes, from_be, from_be_onto, to_be, to_be_onto}
use bounded_spending_account.UserOp.{
  PackedUserOperation, unpack_high128, unpack_low128, unpack_verification_gas_limit,
  unpack_call_gas_limit, unpack_paymaster, unpack_paymaster_verification_gas_limit,
  unpack_post_op_gas_limit, paymaster_data_offset,
}
use bounded_spending_account.Client.{returned}
use bounded_spending_account.Client.Operation.{
  UserOperation, pad16, pack_account_gas_limits, pack_paymaster_data, has_paymaster,
  packed_paymaster, pack_user_op,
}
use bounded_spending_account.Client.Operation.Packing.{
  pack_user_op_unpacks, pack_user_op_unpacks_paymaster,
}
use bounded_spending_account.Client.Queue.{
  nan, increment, is_young, Sender, file, enqueue, queue_user_op_sender, start_sending,
  start_bundle, take_bundle, too_small_or_too_young, Running, started, enqueued, later,
}
use bounded_spending_account.Client.Queue.Filed.{waiting}
use bounded_spending_account.Client.Queue.Taken.{PackTo, queued, sent_by}
use bounded_spending_account.Client.Queue.Drains.{push_at, quiet_queue_is_sent}
use bounded_spending_account.Client.Queue.Bundles.{age_alone_decides}

-- The paymaster at address 3.
abbrev paymaster : Bytes
paymaster = replicate 19 0 ++ (3 ∷ [])

abbrev operation : Address → UserOperation
operation sender = record {
  sender = sender;
  nonce = 4;
  init_code = [];
  call_data = 1 ∷ [];
  call_gas_limit = 5;
  verification_gas_limit = 6;
  pre_verification_gas = 7;
  max_fee_per_gas = 8;
  max_priority_fee_per_gas = 9;
  paymaster = some paymaster;
  paymaster_verification_gas_limit = 10;
  paymaster_post_op_gas_limit = 11;
  paymaster_data = 12 ∷ [];
  signature = [];
}

abbrev packed : Address → PackedUserOperation
packed sender = record {
  sender = sender;
  nonce = 4;
  init_code = [];
  call_data = 1 ∷ [];
  account_gas_limits = 6 * 2 ^ 128 + 5;
  pre_verification_gas = 7;
  gas_fees = 9 * 2 ^ 128 + 8;
  paymaster_and_data = paymaster ++ (replicate 15 0 ++ (10 ∷ (replicate 15 0 ++ (11 ∷ (12 ∷ [])))));
  signature = [];
}

packs : (sender : Address) → pack_user_op (operation sender) ≡ returned (packed sender)
unfolding pack_user_op pack_account_gas_limits packed_paymaster pack_paymaster_data has_paymaster
    pad16 to_be to_be_onto from_be from_be_onto
packs sender = refl

pack_user_op_unpacks_example :
    (unpack_verification_gas_limit (packed 1000) ≡ 6)
    × (unpack_call_gas_limit (packed 1000) ≡ 5)
    × (unpack_high128 (9 * 2 ^ 128 + 8) ≡ 9)
    × (unpack_low128 (9 * 2 ^ 128 + 8) ≡ 8)
    × ((packed 1000).sender ≡ 1000)
    × ((packed 1000).nonce ≡ 4)
    × ((packed 1000).init_code ≡ [])
    × ((packed 1000).call_data ≡ 1 ∷ [])
    × ((packed 1000).pre_verification_gas ≡ 7)
    × ((packed 1000).signature ≡ [])
pack_user_op_unpacks_example = pack_user_op_unpacks (operation 1000) (packs 1000)

nonzero : from_be paymaster ≢ 0
unfolding from_be from_be_onto
nonzero e = omega arith

pack_user_op_unpacks_paymaster_example :
    (paymaster_data_offset ≤ length (packed 1000).paymaster_and_data)
    × (unpack_paymaster (packed 1000) ≡ from_be paymaster)
    × (unpack_paymaster_verification_gas_limit (packed 1000) ≡ 10)
    × (unpack_post_op_gas_limit (packed 1000) ≡ 11)
pack_user_op_unpacks_paymaster_example =
    pack_user_op_unpacks_paymaster (operation 1000) paymaster refl refl nonzero (packs 1000)

-- Three operations of two senders, queued at 100.
abbrev filled : Sender
filled = record {
  sending = false;
  queue = record {
    last_queue_update = some 100;
    queue_size = nan;
    queue = (1000, operation 1000 ∷ operation 1000 ∷ []) ∷ ((2000, operation 2000 ∷ []) ∷ []);
    interval = none;
  };
}

runs : Running 6000 filled
unfolding queue_user_op_sender enqueue increment file
runs = later 6000 (omega arith) (
    enqueued {now = 100} (operation 2000)
      (enqueued (operation 1000) (enqueued (operation 1000) (started 100 none))))

-- What is left at 6000.
abbrev left : Sender
left = record {
  sending = true;
  queue = record {
    last_queue_update = some 100;
    queue_size = nan;
    queue = (1000, operation 1000 ∷ []) ∷ ((2000, []) ∷ []);
    interval = none;
  };
}

age_alone_decides_example : start_sending 6000 filled ≡ (
    if is_young 6000 (some 100)
    then (filled, too_small_or_too_young)
    else start_bundle (take_bundle filled.queue.queue nan) filled.queue)
age_alone_decides_example = age_alone_decides runs refl

old_at_6000 : is_young 6000 (some 100) ≡ false
unfolding is_young
old_at_6000 = refl

-- The timer runs every 3 seconds.
quiet_queue_is_sent_example :
    (waiting (push_at (6000 ∷ 9000 ∷ []) filled).0.queue.queue ≡ 0)
    × ((t : Address)
        → PackTo (queued t filled.queue.queue) (sent_by t (push_at (6000 ∷ 9000 ∷ []) filled).1))
quiet_queue_is_sent_example =
    quiet_queue_is_sent (6000 ∷ 9000 ∷ []) runs refl old_at_6000 (omega arith, (omega arith, tt))
      (
        ((packed 1000, packs 1000), ((packed 1000, packs 1000), tt)),
        (((packed 2000, packs 2000), tt), tt),
      )
      (omega arith, (omega arith, tt))
