-- ===== src/Wallet.antt =====
-- How the wallet claims an output that it finds: services/wallet-daemon/walletd/server.go, from the
-- claim transaction to its submission, and `WalletAccount.Sign` of account_keys.go beside it.
pub mod Claim
use reserve_os.Base.{
  ℕ, [], Bool, true, false, Bytes, codes, length, add64, Option, none, some, Outcome, ok, err,
  panic, ◌>>=◌,
}
use reserve_os.Chain.{TxOut, OtapClaim, Tx, signing_bytes, hash_string}
use reserve_os.Crypto.{hex_decode, sized}
use reserve_os.Crypto.Edwards.{Edwards, decode_point}
use reserve_os.Crypto.Schnorr.{sign}
use reserve_os.Crypto.Otap.{RegistryKeys, PrivateKeys, OtapOutput, detect_with_k, one_time_priv}

pub record OtapKeys : Type 0 where
  pub registry : RegistryKeys
  pub priv : PrivateKeys

pub record WalletAccount : Type 0 where
  pub pub_hex : Bytes
  pub priv_hex : Bytes

abbrev pub otap_context : Bytes
otap_context = codes "default"

abbrev pub wallet_output : TxOut → OtapOutput
wallet_output o = record { p = o.p; r = o.r; tag = o.tag }

-- The claim transaction before it is signed; `nonce` is the account's in the state.
unfoldable pub claim_tx : WalletAccount → ℕ → TxOut → Tx
claim_tx acct nonce o = record {
  version = 0;
  type = codes "otap_claim";
  from = acct.pub_hex;
  pub_key = acct.pub_hex;
  nonce = add64 nonce 1;
  fee = 1000;
  gas_asset = codes "USDR";
  outputs = [];
  otap_claim = some (record {
    p = o.p;
    r = o.r;
    tag = o.tag;
    to = acct.pub_hex;
    amount = o.amount;
    claim_sig_hex = [];
  });
  memo = [];
  sig_hex = [];
}

-- `s, _ := f()`: an error gives the empty string.
abbrev pub or_empty : Outcome Bytes → Bytes
or_empty (ok s) = s
or_empty (err m) = []
or_empty panic = []

abbrev pub set_claim_sig : Bytes → OtapClaim → OtapClaim
set_claim_sig sig c = record c { claim_sig_hex = sig }

abbrev pub with_claim_sig : Bytes → Tx → Tx
with_claim_sig sig tx = record tx {
  otap_claim = elim tx.otap_claim [ none ↦ none | some c ↦ some (set_claim_sig sig c) ];
}

abbrev pub with_sig : Bytes → Tx → Tx
with_sig sig tx = record tx { sig_hex = sig }

module _ (ed25519_sign : Bytes → Bytes → Bytes) where
  unfoldable pub account_sign : WalletAccount → Bytes → Outcome Bytes
  unfolding hex_decode sized
  account_sign a msg = do
    b ← hex_decode a.priv_hex
    key ← sized 64 (codes "bad priv size") b
    ok (hash_string (ed25519_sign key msg))

  module _ (e : Edwards) where
    -- The two signatures; the second is over the bytes after the first is set.
    unfoldable pub sign_claim : Outcome Bytes → WalletAccount → e.Scalar → e.Point → Tx → Tx
    sign_claim read acct x p tx =
        let claimed = with_claim_sig (or_empty (sign e read x p (signing_bytes tx))) tx in
        with_sig (or_empty (account_sign acct (signing_bytes claimed))) claimed

    -- After `DetectWithK`; nothing is submitted where it finds no match.
    unfoldable pub claim_found :
        Outcome Bytes
        → OtapKeys
        → WalletAccount
        → ℕ
        → TxOut
        → Bool × Bytes × Option e.Scalar
        → Outcome (Option Tx)
    unfolding sign_claim
    claim_found read keys acct nonce o (true, shared, some k) = do
      x ← one_time_priv e keys.priv.spend_priv k
      p ← decode_point e o.p
      ok (some (sign_claim read acct x p (claim_tx acct nonce o)))
    claim_found read keys acct nonce o (found, shared, scalar) = ok none

    -- The transaction that is submitted. On an error nothing is.
    unfoldable pub claim_output :
        Outcome Bytes → Bytes → OtapKeys → WalletAccount → ℕ → TxOut → Outcome (Option Tx)
    unfolding claim_found
    claim_output read chain_id keys acct nonce o = do
      found ←
          detect_with_k e chain_id otap_context (wallet_output o) keys.priv.scan_priv
            keys.registry.spend_pub
      claim_found read keys acct nonce o found
