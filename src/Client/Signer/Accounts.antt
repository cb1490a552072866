-- ===== src/Client/Signer/Accounts.antt =====
-- Which account `AASigner` of lib/account-abstraction/src/AASigner.ts acts for.
use bounded_spending_account.Prelude.{
  ℕ, ◌≡◌, ◌≢◌, false, [], none, some, refl, length, ◌==◌, if◌then◌else◌, arith,
}
use bounded_spending_account.Solidity.{Address}
use bounded_spending_account.Client.{returned}
use bounded_spending_account.Client.Signer.{
  Signer, new_signer, Network, Transaction, connect_account_address, account_or_predicted,
  sync_account, get_address, is_phantom, draft_user_operation,
}

-- A connected signer acts for the account that it was connected to, which had code, and is never a
-- phantom: whatever the network then says, its address is that account's, and the operations that
-- it drafts come from there, with no init code and with the nonce of the transaction.
pub connected_signer_keeps_its_account :
    (net net' : Network) (address : Address) (s : Signer) (index : ℕ) (tx : Transaction)
    {s' : Signer}
    → connect_account_address net address s ≡ returned s'
    → (net.get_code address ≢ [])
      × (s.account ≡ none)
      × ((get_address net' s').0 ≡ address)
      × ((is_phantom net' s').0 ≡ false)
      × ((draft_user_operation net' index tx s').0.sender ≡ address)
      × ((draft_user_operation net' index tx s').0.init_code ≡ none)
      × ((draft_user_operation net' index tx s').0.nonce ≡ tx.nonce)
unfolding connect_account_address get_address is_phantom sync_account account_or_predicted
    draft_user_operation
connected_signer_keeps_its_account net net' address s index tx h = ground arith

-- A new signer drafts an operation from the address that the factory predicts; it has init code,
-- and the signer's index as its nonce, exactly while there is no code at that address.
pub new_signer_creates_its_account :
    (net : Network) (index : ℕ) (tx : Transaction)
    → ((draft_user_operation net index tx new_signer).0.sender ≡ net.account_address 0)
      × ((draft_user_operation net index tx new_signer).0.init_code ≡ (
          if length (net.get_code (net.account_address 0)) == 0
          then some (net.account_init_code 0)
          else none))
      × ((draft_user_operation net index tx new_signer).0.nonce
          ≡ (if length (net.get_code (net.account_address 0)) == 0 then some index else tx.nonce))
unfolding new_signer draft_user_operation sync_account account_or_predicted
new_signer_creates_its_account net index tx = ground arith

-- Once a signer has found code at its account, it drafts operations from that account with no init
-- code, whatever the network says later.
pub deployed_signer_stays_deployed :
    (net net' : Network) (s : Signer) (index : ℕ) (tx : Transaction)
    → (is_phantom net s).0 ≡ false
    → ((draft_user_operation net' index tx (is_phantom net s).1).0.sender ≡ (get_address net s).0)
      × ((draft_user_operation net' index tx (is_phantom net s).1).0.init_code ≡ none)
unfolding get_address is_phantom sync_account account_or_predicted draft_user_operation
deployed_signer_stays_deployed net net' s index tx h = ground arith

-- The index of a signer does not choose its account: signers in the same state, with whatever
-- indices, have the same account and draft operations from there with the same init code, a new one
-- from the account of salt 0. An operation that creates the account has the index as its nonce.
pub index_does_not_choose_the_account :
    (net : Network) (index other : ℕ) (tx : Transaction) (s : Signer)
    → ((draft_user_operation net index tx s).0.sender
        ≡ (draft_user_operation net other tx s).0.sender)
      × ((draft_user_operation net index tx s).0.init_code
          ≡ (draft_user_operation net other tx s).0.init_code)
      × ((draft_user_operation net index tx new_signer).0.sender ≡ net.account_address 0)
      × ((draft_user_operation net index tx s).0.init_code ≢ none
          → (draft_user_operation net index tx s).0.nonce ≡ some index)
unfolding new_signer draft_user_operation sync_account account_or_predicted
index_does_not_choose_the_account net index other tx s = (refl, refl, refl, ground arith)
