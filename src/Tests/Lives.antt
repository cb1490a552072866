-- ===== src/Tests/Lives.antt =====
-- Tests of the theorems on the life of an account (src/SpendingAccount.sol).
use bounded_spending_account.Prelude.{◌≤◌, arith, []}
use bounded_spending_account.Account.{construct}
use bounded_spending_account.Account.History.{Reach, created, later}
use bounded_spending_account.Account.History.Usdc.{IsUsdcCounted, usdc_counters_never_reset}
use bounded_spending_account.Account.History.Eth.{eth_between, current_window_within_limits}
use bounded_spending_account.Tests.{config, fresh}

lived : Reach config 1500 fresh
unfolding construct
lived = later 1500 (omega arith) (created 1000)

usdc_counters_never_reset_example : IsUsdcCounted config fresh
usdc_counters_never_reset_example = usdc_counters_never_reset lived

current_window_within_limits_example :
    (eth_between 1000 1500 [] ≤ 0)
    × (0 ≤ config.daily_eth_limit)
    × (eth_between 1000 1500 [] ≤ 0)
    × (0 ≤ config.monthly_eth_limit)
current_window_within_limits_example = current_window_within_limits lived 1500
