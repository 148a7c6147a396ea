-- ===== src/Wallet.antt =====
-- wallet.go: the wallet, around one key of 64 bytes; and signer.go: the placeholder signer. The
-- functions of ed25519 and of base58, and the environment's variables, are parameters.
pub mod Laws
use solvela_go.Base.{
  Bytes, ℕ, Bool, true, false, not, ◌||◌, Option, none, some, [], ◌∷◌, ◌++◌, ◌⊎◌, inl, inr, ◌==◌,
  nat_eq, bytes_eq, if◌then◌else◌, codes, length,
}
use solvela_go.Errors.{
  Error, Result, ok, err, Message, lit, str, decimal, cause, wallet_error, signer_error,
}
use solvela_go.Types.Payment.{PaymentPayload}
use solvela_go.Exec.{SignRequest}

-- On the left what a call gave, on the right the text of its error.
pub record Crypto : Type 0 where
  -- `ed25519.GenerateKey`, the private key; `ed25519.Sign`; `PrivateKey.Public`
  pub generate_key : Bytes ⊎ Bytes
  pub sign : Bytes → Bytes → Bytes
  pub public : Bytes → Bytes
  -- `base58.Decode` and `base58.Encode`
  pub decode : Bytes → Bytes ⊎ Bytes
  pub encode : Bytes → Bytes
  -- `os.Getenv`
  pub getenv : Bytes → Bytes

-- `ed25519.PrivateKeySize`
abbrev pub private_key_size : ℕ
private_key_size = 64

-- The dash is U+2014.
abbrev mnemonic_text : Bytes
mnemonic_text =
    codes "(mnemonic not supported " ++ 0xE2 ∷ 0x80 ∷ 0x94 ∷ codes " store keypair bytes)"

pub record Wallet : Type 0 where
  pub private_key : Bytes

-- `WalletFromKeypairBytes`
unfoldable pub wallet_from_keypair_bytes : Bytes → Result Wallet
wallet_from_keypair_bytes raw =
    if not (length raw == private_key_size)
    then err (
        wallet_error (
          lit "invalid keypair length: expected "
          ∷ decimal private_key_size
          ∷ lit ", got "
          ∷ decimal (length raw)
          ∷ []))
    else ok (record { private_key = raw })

unfoldable pub decoded_wallet : Bytes ⊎ Bytes → Result Wallet
unfolding wallet_from_keypair_bytes
decoded_wallet (inl raw) = wallet_from_keypair_bytes raw
decoded_wallet (inr why) = err (wallet_error (lit "invalid base58: " ∷ cause why ∷ []))

-- `PublicKey` and `Address`
module _ (crypto : Crypto) where
  unfoldable pub public_key : Wallet → Bytes
  public_key w = crypto.public w.private_key

  unfoldable pub wallet_address : Wallet → Bytes
  unfolding public_key
  wallet_address w = crypto.encode (public_key w)

  -- `String`
  unfoldable pub wallet_text : Wallet → Message
  unfolding wallet_address
  wallet_text w = lit "Wallet(address=" ∷ str (wallet_address w) ∷ lit ", secret=REDACTED)" ∷ []

  -- `ToKeypairB58`
  unfoldable pub to_keypair_b58 : Wallet → Bytes
  to_keypair_b58 w = crypto.encode w.private_key

  -- `WalletFromKeypairB58`
  unfoldable pub wallet_from_keypair_b58 : Bytes → Result Wallet
  unfolding decoded_wallet
  wallet_from_keypair_b58 b58 = decoded_wallet (crypto.decode b58)

  -- `WalletFromEnv`
  unfoldable pub wallet_from_env : Bytes → Result Wallet
  unfolding wallet_from_keypair_b58
  wallet_from_env var_name =
      let val = crypto.getenv var_name in
      if val == []
      then err (wallet_error (lit "environment variable " ∷ str var_name ∷ lit " not set" ∷ []))
      else wallet_from_keypair_b58 val

  unfoldable pub generated : Bytes ⊎ Bytes → Result (Wallet × Bytes)
  generated (inl key) = ok (record { private_key = key }, mnemonic_text)
  generated (inr why) = err (wallet_error (lit "failed to generate keypair: " ∷ cause why ∷ []))

  -- `CreateWallet`
  unfoldable pub create_wallet : Result (Wallet × Bytes)
  unfolding generated
  create_wallet = generated crypto.generate_key

  -- `Sign`, of a wallet that may be nil
  unfoldable pub sign_message : Option Wallet → Bytes → Result Bytes
  sign_message none msg = err (wallet_error (lit "wallet is not initialized" ∷ []))
  sign_message (some w) msg =
      if not (length w.private_key == private_key_size)
      then err (wallet_error (lit "wallet is not initialized" ∷ []))
      else ok (crypto.sign w.private_key msg)

-- `ToKeypairBytes`
unfoldable pub to_keypair_bytes : Wallet → Bytes
to_keypair_bytes w = w.private_key

pub record UnimplementedSigner : Type 0 where
  pub wallet : Wallet
  pub rpc_url : Bytes

-- `NewUnimplementedSigner`
unfoldable pub new_unimplemented_signer : Wallet → Bytes → UnimplementedSigner
new_unimplemented_signer w rpc_url = record {
  wallet = w;
  rpc_url = if rpc_url == [] then codes "https://api.mainnet-beta.solana.com" else rpc_url;
}

-- `UnimplementedSigner.SignPayment`
unfoldable pub sign_payment : UnimplementedSigner → SignRequest → Result PaymentPayload
sign_payment s req = err (
    signer_error (
      codes
        "UnimplementedSigner.SignPayment is not yet implemented in solvela-go; use the Python or TS SDK, or implement a custom Signer"))
