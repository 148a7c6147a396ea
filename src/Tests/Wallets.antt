-- ===== src/Tests/Wallets.antt =====
-- Wallets at concrete inputs.
use solvela_go.Base.{
  Bytes, ◌≡◌, ◌≢◌, refl, ◌↔◌, inl, inr, ◌⊎◌, ap, some, [], ◌∷◌, ◌++◌, codes, length, nat_eq,
  ℕ_discrete,
}
use solvela_go.Errors.{ok}
use solvela_go.Wallet.{
  Crypto, private_key_size, Wallet, to_keypair_b58, wallet_from_keypair_b58, wallet_from_env,
  sign_message,
}
use solvela_go.Wallet.Laws.{wallet_from_env_iff, wallet_from_keypair_b58-to_keypair_b58}

-- Sixty-four bytes.
abbrev key : Bytes
key = codes "0123456789abcdef0123456789abcdef0123456789abcdef0123456789abcdef"

-- A code that, as base 58, has none for the empty text: each byte is written twice. A signature is the
-- key before the message.
abbrev double : Bytes → Bytes
double [] = []
double (c ∷ s) = c ∷ c ∷ double s

abbrev halve : Bytes → Bytes
halve [] = []
halve (c ∷ []) = c ∷ []
halve (c ∷ d ∷ s) = c ∷ halve s

abbrev halved : Bytes → Bytes ⊎ Bytes
halved [] = inr (codes "zero length string")
halved (c ∷ s) = inl (halve (c ∷ s))

abbrev crypto : Crypto
crypto = record {
  generate_key = inl key;
  sign = λ k msg. k ++ msg;
  public = λ k. k;
  decode = halved;
  encode = double;
  getenv = λ name. double key;
}

abbrev wallet : Wallet
wallet = record { private_key = key }

wallet_from_env_iff_example : (wallet_from_env crypto (codes "KEYPAIR") ≡ ok wallet) ↔ (
    (double key ≢ [])
    × (length key ≡ private_key_size)
    × (crypto.decode (crypto.getenv (codes "KEYPAIR")) ≡ inl key))
wallet_from_env_iff_example = wallet_from_env_iff crypto (codes "KEYPAIR") wallet

signs : sign_message crypto (some wallet) (codes "x") ≡ ok (key ++ codes "x")
unfolding sign_message codes ℕ_discrete
signs = refl

halve-double : (s : Bytes) → halve (double s) ≡ s
halve-double [] = refl
halve-double (c ∷ s) = ap (◌∷◌ c) (halve-double s)

halved-double : (s : Bytes) → s ≢ [] → halved (double s) ≡ inl s
halved-double [] filled = absurd (filled refl)
halved-double (c ∷ s) filled = ap inl (halve-double (c ∷ s))

wallet_from_keypair_b58-to_keypair_b58_example :
    wallet_from_keypair_b58 crypto (to_keypair_b58 crypto wallet) ≡ ok wallet
wallet_from_keypair_b58-to_keypair_b58_example =
    wallet_from_keypair_b58-to_keypair_b58 crypto wallet (codes "x") (key ++ codes "x")
      halved-double signs
