-- ===== src/Transport/Base.antt =====
-- What both transports share, of jetsocket/transport/base.py and jetsocket/types.py, and how a call
-- that waits for the network is seen.
use jetsocket.Prelude.{ℕ, zero, suc, Option, none, some, List}
use jetsocket.Exceptions.{Error}
use jetsocket.Codec.Mask.{Key}
use jetsocket.Codec.Deflater.{Zlib}

-- A call that waits for ever, returns or raises.
pub data Reply {ℓ} (A : Type ℓ) : Type ℓ where
  waits : Reply A
  returns : A → Reply A
  raises : Error → Reply A

-- The next statement, on the value of the one before and the object as it left it.
abbrev pub next_statement {ℓ κ μ} :
    {A : Type ℓ} {B : Type κ} {S : Type μ} → Reply A × S → (A → S → Reply B × S) → Reply B × S
next_statement (waits, s) f = (waits, s)
next_statement (returns a, s) f = f a s
next_statement (raises e, s) f = (raises e, s)

-- try: … except Exception: pass
abbrev pub suppressed {ℓ μ} : {S : Type μ} → Reply (Unit {ℓ}) × S → Reply (Unit {ℓ}) × S
suppressed (raises e, s) = (returns tt, s)
suppressed (waits, s) = (waits, s)
suppressed (returns u, s) = (returns u, s)

-- The settings of `BaseTransportConfig` that the modelled code reads.
pub record TransportConfig : Type 0 where
  pub max_frame_size : ℕ
  pub max_message_size : ℕ
  pub compression_threshold : ℕ

-- CloseCode.NO_STATUS
abbrev pub no_status : ℕ
no_status = 1005

-- frame.close_code or CloseCode.NO_STATUS
abbrev pub code_or_no_status : Option ℕ → ℕ
code_or_no_status none = no_status
code_or_no_status (some zero) = no_status
code_or_no_status (some (suc n)) = suc n

-- What stands around a transport: zlib, its settings, the n-th key that os.urandom gives, and what
-- decoding octets with replacement characters and encoding the text again makes of them.
pub record Environment (C D : Type 0) : Type 0 where
  pub zlib : Zlib C D
  pub config : TransportConfig
  pub random_key : ℕ → Key
  pub repaired : List ℕ → List ℕ
