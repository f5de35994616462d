-- ===== src/TxRelayer/Common.antt =====
-- txrelayer/common.go, and the test of `isStakingMintTryAgainError`.
use lorenzo_btcstaking_submi.Base.{String, Bool, ◌||◌, Error, error_text}
use lorenzo_btcstaking_submi.Base.Text.{contains}

abbrev pub lorenzo_btc_staking_not_confirmed_error_message : String
lorenzo_btc_staking_not_confirmed_error_message = "not k-deep"

abbrev pub lorenzo_btc_staking_duplicate_tx_error_message : String
lorenzo_btc_staking_duplicate_tx_error_message = "duplicate btc transaction"

abbrev pub lorenzo_timeout_error_message : String
lorenzo_timeout_error_message = "context deadline exceeded"

abbrev pub lorenzo_btc_header_not_found_error_message : String
lorenzo_btc_header_not_found_error_message = "btc block header not found"

abbrev pub post_failed_message : String
post_failed_message = "post failed"

abbrev pub sequence_mismatch : String
sequence_mismatch = "account sequence mismatch"

abbrev pub bnb_btcb_staking_duplication : String
bnb_btcb_staking_duplication = "duplicate event"

-- Of an error that is not nil.
unfoldable pub is_staking_mint_try_again_error : Error → Bool
is_staking_mint_try_again_error e =
    contains (error_text e) lorenzo_timeout_error_message
    || contains (error_text e) lorenzo_btc_staking_not_confirmed_error_message
    || contains (error_text e) lorenzo_btc_staking_duplicate_tx_error_message
    || contains (error_text e) lorenzo_btc_header_not_found_error_message
    || contains (error_text e) post_failed_message
    || contains (error_text e) sequence_mismatch
