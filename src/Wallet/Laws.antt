-- ===== src/Wallet/Laws.antt =====
-- Which texts make a wallet, and what the wallet is.
use solvela_go.Base.{
  Bytes, ◌≡◌, ◌↔◌, ◌≢◌, ◌⊎◌, inl, inr, some, [], ◌∷◌, nat_eq, bytes_eq, arith, length,
}
use solvela_go.Errors.{ok}
use solvela_go.Wallet.{
  Crypto, private_key_size, Wallet, wallet_from_keypair_bytes, decoded_wallet, to_keypair_b58,
  wallet_from_keypair_b58, wallet_from_env, sign_message,
}

bytes_iff :
    (raw : Bytes) (w : Wallet)
    → (wallet_from_keypair_bytes raw ≡ ok w)
      ↔ ((length raw ≡ private_key_size) × (w.private_key ≡ raw))
unfolding wallet_from_keypair_bytes
bytes_iff raw w = ground arith

decoded_iff :
    (r : Bytes ⊎ Bytes) (w : Wallet)
    → (decoded_wallet r ≡ ok w)
      ↔ ((length w.private_key ≡ private_key_size) × (r ≡ inl w.private_key))
unfolding decoded_wallet
decoded_iff (inl raw) w = ground (arith, bytes_iff raw w)
decoded_iff (inr why) w = (λ h. cc, λ h. cc)

not_empty : (s : Bytes) → length s ≡ private_key_size → s ≢ []
not_empty [] h = absurd (omega arith)
not_empty (c ∷ s) h = λ empty. cc

module _ (crypto : Crypto) where
  -- A variable of the environment gives a wallet exactly if it is set and spells 64 bytes in base 58,
  -- and these are the wallet's key.
  pub wallet_from_env_iff :
      (var_name : Bytes) (w : Wallet)
      → (wallet_from_env crypto var_name ≡ ok w) ↔ (
          (crypto.getenv var_name ≢ [])
          × (length w.private_key ≡ private_key_size)
          × (crypto.decode (crypto.getenv var_name) ≡ inl w.private_key))
  unfolding wallet_from_env wallet_from_keypair_b58
  wallet_from_env_iff var_name w =
      ground (arith, decoded_iff (crypto.decode (crypto.getenv var_name)) w)

  -- If decoding undoes the encoding of every text that is not empty: a wallet that can sign comes back
  -- from the text that it is written out as.
  pub wallet_from_keypair_b58-to_keypair_b58 :
      (w : Wallet) (msg signature : Bytes)
      → ((s : Bytes) → s ≢ [] → crypto.decode (crypto.encode s) ≡ inl s)
      → sign_message crypto (some w) msg ≡ ok signature
      → wallet_from_keypair_b58 crypto (to_keypair_b58 crypto w) ≡ ok w
  unfolding wallet_from_keypair_b58 to_keypair_b58 sign_message
  wallet_from_keypair_b58-to_keypair_b58 w msg signature undone signs =
      let whole : length w.private_key ≡ private_key_size = ground arith in
      (decoded_iff (crypto.decode (crypto.encode w.private_key)) w).1
        (whole, undone w.private_key (not_empty w.private_key whole))
