-- ===== src/OpenSsl/Keys.antt =====
-- The size of a key in bytes.
use t_cose.Common.{ℕ, ◌+◌, ◌*◌, ◌<◌, ◌≤◌, arith}
use t_cose.OpenSsl.{OpenSsl, ecdsa_key_size}

-- ecdsa_key_size() is the least number of bytes that holds the bits of the key.
pub ecdsa_key_size_lem :
    (o : OpenSsl) (key : ℕ)
    → (o.pkey_bits key ≤ 8 * ecdsa_key_size o key)
      × (8 * ecdsa_key_size o key < o.pkey_bits key + 8)
unfolding ecdsa_key_size
ecdsa_key_size_lem o key = ground arith
