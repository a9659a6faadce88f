-- ===== src/RunQueue/Platform.antt =====
-- What the queue takes from Go's packages encoding/json, crypto/sha256, crypto/ed25519 and
-- encoding/base64, and from the tables of unicode above ASCII.
use Prim.Native.Char.{Char}
use proof_layer.Base.{◌≡◌, Bool, true, String, Option, some, Bytes}
use proof_layer.RunQueue.Model.{CreateRequest, UnsignedJob}

pub record Platform : Type 0 where
  pub wide_lower : Char → Char
  pub marshal_request : CreateRequest → Option Bytes
  pub marshal_job : UnsignedJob → Option Bytes
  pub sha256 : Bytes → Bytes
  pub sign : Bytes → Bytes → Bytes
  pub check_signature : Bytes → Bytes → Bytes → Bool
  pub encode_base64 : Bytes → String
  pub decode_base64 : String → Option Bytes

-- The documented laws for one pair of keys: a signature passes the check of its payload, and the
-- encoding of a signature is decoded to it.
pub record Signs (p : Platform) (private_key public_key : Bytes) : Type 0 where
  pub check-sign :
      (payload : Bytes) → p.check_signature public_key payload (p.sign private_key payload) ≡ true
  pub decode-encode :
      (payload : Bytes)
      → p.decode_base64 (p.encode_base64 (p.sign private_key payload))
        ≡ some (p.sign private_key payload)

-- The bytes that `crypto/rand` yields for one job; `none` is a read that fails.
pub record Entropy : Type 0 where
  pub job_id : Option Bytes
  pub correlation : Option Bytes
  pub nonce : Option Bytes
