-- ===== src/Account.antt =====
-- The immutables, the storage and the events of src/SpendingAccount.sol.
pub mod Spending
pub mod Parsing
pub mod World
pub mod Entry
pub mod History
pub mod Messages
pub mod Evm
use bounded_spending_account.Prelude.{ℕ, ◌+◌, ◌^◌, List, [], ◌∷◌}
use bounded_spending_account.Solidity.{Address}

-- 0x833589fCD6eDb6E08f4c7C32D4f71b54bdA02913
abbrev pub usdc_address : Address
usdc_address = 0x833589fcd6edb6e08f4c7c32d4f71b54bda02913

-- 48 hours and 1 hour, in seconds
abbrev pub withdraw_timelock : ℕ
withdraw_timelock = 172800

abbrev pub cooldown_period : ℕ
cooldown_period = 3600

abbrev pub panic_threshold_bps : ℕ
panic_threshold_bps = 5000

-- The immutables of the contract, and its own address.
pub record Config : Type 0 where
  pub this : Address
  pub entry_point : Address
  pub vault_owner : Address
  pub paymaster : Address
  pub usdc_per_eth : ℕ
  pub daily_eth_limit : ℕ
  pub monthly_eth_limit : ℕ
  pub daily_usdc_limit : ℕ
  pub monthly_usdc_limit : ℕ

pub data Event : Type 0 where
  eth_spent usdc_spent : ℕ → Event
  emergency_withdraw_requested : Event
  emergency_withdraw_executed : Address → ℕ → ℕ → Event

-- An event with the timestamp of its block.
abbrev pub Log : Type 0
Log = ℕ × Event

-- The storage, and the events that the contract has emitted, the newest first.
pub record Account : Type 0 where
  pub daily_eth_spent : ℕ
  pub monthly_eth_spent : ℕ
  pub daily_usdc_spent : ℕ
  pub monthly_usdc_spent : ℕ
  pub last_daily_reset_timestamp : ℕ
  pub last_monthly_reset_timestamp : ℕ
  pub emergency_withdraw_request_time : ℕ
  pub last_large_spend_time : ℕ
  pub logs : List Log

-- The storage that the constructor leaves, in a block with timestamp `now`.
unfoldable pub construct : ℕ → Account
construct now = record {
  daily_eth_spent = 0;
  monthly_eth_spent = 0;
  daily_usdc_spent = 0;
  monthly_usdc_spent = 0;
  last_daily_reset_timestamp = now;
  last_monthly_reset_timestamp = now;
  emergency_withdraw_request_time = 0;
  last_large_spend_time = 0;
  logs = [];
}

-- `emit e`
abbrev pub emit : ℕ → Event → Account → Account
emit now e s = record s { logs = (now, e) ∷ s.logs }
