-- ===== src/BnbTypes.antt =====
-- bnbclient/bnbtypes: the header of a BNB block, its encodings and its hash.
pub mod Header
pub mod Rlp
pub mod Json
