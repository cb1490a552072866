-- ===== src/Tests.antt =====
-- Concrete accounts, chains and calls, for the tests of the other modules.
mod Spends
mod Chains
mod Lives
mod Contracts
mod Clients
mod Tooling
mod Reports
mod Reentry
mod Charges
mod Drafts
use bounded_spending_account.Prelude.{
  ℕ, ◌^◌, ◌*◌, List, [], ◌∷◌, some, ◌==◌, if◌then◌else◌, ap, subst, Option, none,
}
use bounded_spending_account.Solidity.Bytes.{to_be}
use bounded_spending_account.Solidity.Abi.{Call}
use bounded_spending_account.UserOp.{PackedUserOperation}
use bounded_spending_account.Account.{Config, Account, eth_spent}
use bounded_spending_account.Account.World.{World, Chain}
use bounded_spending_account.Account.Entry.Steps.{IsIsolated}
use bounded_spending_account.Account.History.{Trace, done}
use bounded_spending_account.Account.Parsing.CallData.{execute_data}

-- 1 and 5 ETH, 100 and 500 USDC, at 3000 USDC for one ETH.
abbrev pub config : Config
config = record {
  this = 1000;
  entry_point = 1;
  vault_owner = 2;
  paymaster = 3;
  usdc_per_eth = 3000000000;
  daily_eth_limit = 10 ^ 18;
  monthly_eth_limit = 5 * 10 ^ 18;
  daily_usdc_limit = 100000000;
  monthly_usdc_limit = 500000000;
}

-- A chain on which every call succeeds, leaves the world as it is, and returns `true`.
abbrev pub quiet : Chain (Unit {0})
quiet = record {
  call = λ target value payload w. some (w, to_be 32 1);
  code_length = λ a w. 1;
  usdc_balance = λ a w. 25;
  deposit_balance = λ a w. 0;
  recover = λ hash signature. some 2;
}

pub quiet-IsIsolated : (now : ℕ) → IsIsolated quiet config now
quiet-IsIsolated now = record {
  keeps = λ target value payload w {w'} {r} h.
      subst (λ x. Trace config now w.account x.account)
        (ap (λ o. elim o [ none ↦ w | some (v, _) ↦ v ]) h) done;
}

-- The account is created at 1000, and holds one ETH.
abbrev pub fresh : Account
fresh = record {
  daily_eth_spent = 0;
  monthly_eth_spent = 0;
  daily_usdc_spent = 0;
  monthly_usdc_spent = 0;
  last_daily_reset_timestamp = 1000;
  last_monthly_reset_timestamp = 1000;
  emergency_withdraw_request_time = 0;
  last_large_spend_time = 0;
  logs = [];
}

abbrev pub world : World (Unit {0})
world = record { account = fresh; eth = λ a. if a == 1000 then 10 ^ 18 else 0; rest = tt }

-- 30 USDC and 60 USDC, in wei
abbrev pub small : ℕ
small = 10 ^ 16

abbrev pub large : ℕ
large = 2 * 10 ^ 16

-- The account after `value` wei have been spent at 1200.
abbrev pub spent : ℕ → Account
spent value = record fresh {
  daily_eth_spent = value;
  monthly_eth_spent = value;
  logs = (1200, eth_spent value) ∷ [];
}

abbrev pub send : ℕ → Call
send value = record { target = 77; value = value; payload = 1 ∷ 2 ∷ [] }

abbrev pub operation : ℕ → PackedUserOperation
operation value = record {
  sender = 1000;
  nonce = 0;
  init_code = [];
  call_data = execute_data (send value);
  account_gas_limits = 0;
  pre_verification_gas = 0;
  gas_fees = 0;
  paymaster_and_data = [];
  signature = [];
}
