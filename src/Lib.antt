-- ===== src/Lib.antt =====
-- A spending account with daily and monthly limits, its paymaster and its factory, and the tooling
-- that makes user operations for such accounts.
--
-- The contracts are Solidity, in src/ of the repository. An entry point (ERC-4337) asks the account
-- to validate a user operation: the account checks the signature and, before any gas is paid, the
-- spend of the operation with the price of its gas in USDC. It then asks the account to execute the
-- operation: the account records the spend and makes the calls. The paymaster pays for the gas in
-- ETH and afterwards charges the account in USDC. The owner can withdraw everything 48 hours after
-- a request. The TypeScript tooling in lib/account-abstraction packs operations, bundles queued
-- ones, follows their events, and deploys contracts.
--
-- The files, and the code that they are about:
--   Prelude: shared names, Boolean tests, lists over the native numbers.
--   Solidity: results and reverts, checked arithmetic on uint256; Solidity/Bytes: big-endian
--     numbers; Solidity/Abi: the ABI decoder at the types that are decoded.
--   LimitPolicy: src/LimitPolicy.sol, function by function.
--   Account: the immutables, storage and events of src/SpendingAccount.sol.
--     Account/Spending: `_getUsdValue`, `_checkAndUpdatePanicCooldown`, `_validatePreflightLimits`,
--       `_applySpendAndUpdate`, `_applyUsdcSpend`; its children describe what each of them does
--       (Outcome, Cooldown) and when one that follows another succeeds (Agreement).
--     Account/Parsing: `_parseSpendAmounts`, `_slice`, `_parseSpendAmountsFromCallData`, the sums of
--       `executeBatch`.
--     Account/World: balances, and the contracts that are called, as the parameter `Chain`.
--     Account/Entry: the external functions; its children say who may call them (Guards), what a
--       call that succeeds has passed (Access, Spends), and which changes of the storage it makes
--       (Steps).
--     Account/History: the changes as a step relation on the storage, and its invariants.
--     Account/Messages: all messages of all senders, and the life of a deployed account.
--     Account/Evm: the code of other contracts, as any interaction with the account; its children
--       are about the storage (Isolated) and the ETH (Ledger, Solvent) under such code.
--   UserOp: lib/account-abstraction/contracts/core/UserOperationLib.sol as far as it is used, and
--     `_getUsdcGasCostIfPaymaster` in UserOp/Cost.
--   Paymaster: src/SpendingPaymaster.sol with the hooks of BasePaymaster.sol; Paymaster/Charges is
--     about the paymaster and the account together, Paymaster/Funds models the deposit and stake
--     functions of BasePaymaster.sol.
--   Factory: src/SpendingAccountFactory.sol.
--   Client: the tooling. Client/Operation: `packUserOp` of lib/account-abstraction/test/UserOp.ts;
--     Client/Operation/Fill: `fillUserOp` there; Fill/Sign: `asyncSignUserOp`, `fillAndSign`,
--     `fillAndPack`, `fillSignAndPack`. Fill/Extends, Fill/Steps and Fill/Given are about the fields
--     that `fillUserOp` keeps, Fill/Signed is about what is signed.
--     Client/Queue: `queueUserOpSender` and `sendQueuedUserOps` of
--     lib/account-abstraction/src/AASigner.ts; Queue/Filed and Queue/Rounds are about its lists and
--     the loop over them, Queue/Bundles about one bundle, Queue/Taken and Queue/Drains about the
--     calls that empty it. Client/Signer: the class `AASigner` there, and its
--     operations as they are filled in (Drafts). Client/Senders:
--     `rpcUserOpSender` and `localUserOpSender` there. Client/Interfaces:
--     lib/account-abstraction/src/Utils.ts.
--     Client/Deployer: lib/account-abstraction/src/Create2Factory.ts.
--   GasCheck: lib/account-abstraction/gascalc. GasCheck/Accounts: `createAccounts1` of
--     GasChecker.ts; GasCheck/Signing: how the promises of `runTest` interleave; GasCheck/Runs:
--     `runTest`; GasCheck/Report: `GasCheckCollector`; GasCheck/Suites: the tests *.gas.ts.
--   Scripts: Scripts/RunOp is lib/account-abstraction/src/runop.ts; Scripts/Deployment is
--     hardhat.config.ts and deploy/*.ts there.
--   Tests: concrete runs.
--
-- How state and effects are modelled. A function that can revert returns a `Result`; the chain drops
-- what a reverted call has written, so a revert carries no state. The account's storage is a record
-- that its functions take and return, together with the list of its events, each with the timestamp
-- of its block. A word is a number; sums and products test for overflow where Solidity does, and the
-- one unchecked sum (`gasPrice`) wraps at 2^256. Loops are structural recursion on lists, bytes or
-- counts, and need no fuel; the hex digits of a number take 64 rounds and
-- the decimal ones 78, enough below 2^256. The calls that the account makes run on the whole world
-- and may come back to the account: what they do is code of the type `Code`, which can read
-- everything, write other contracts' storage, send their ETH, and send the account any message, also
-- within an attempt that is undone. A call goes to any depth that is given, and fails beyond it, as
-- on the EVM. `IsIsolated` and `IsSolvent` say what of this the lemmas on the account use.
-- JavaScript functions return or throw (`Try`); the bundler, which is asynchronous, is a
-- state machine with a step at each point where it waits, and so are the promises of a gas test,
-- from the answer to their estimate on. Each run of the event listener is one step.
--
-- Parameters: the called contracts, the code sizes, USDC and entry point balances, and signature
-- recovery (`Chain`); the creation code, keccak256, CREATE2 and OpenZeppelin's `Create2`
-- (`Creation`); the account's charge as the paymaster sees it; the provider and the network of the
-- tooling, with ethers and hardhat-deploy (`Provider`, `Network`, `Node`, `Site`, `Hardhat`,
-- `Nodes`), where `Site` also stands for Client/Operation/Fill in the gas tests.
--
-- Not modelled: gas, but for the readings of `gasleft()` that a function tests; the return data of
-- failed calls; the entry point itself and the rest of the library in lib/account-abstraction; the
-- hashing of typed data and the simulation calls in test/UserOp.ts; the settings of compilers and
-- linters; the loop in `runTest` that asks for a receipt up to 100 times, which only shortens a
-- wait; script/Deploy.s.sol and lib/forge-std.
pub mod Prelude
pub mod Solidity
pub mod LimitPolicy
pub mod Account
pub mod UserOp
pub mod Paymaster
pub mod Factory
pub mod Client
pub mod GasCheck
pub mod Scripts
pub mod Tests
