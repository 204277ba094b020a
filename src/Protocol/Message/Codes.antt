-- ===== src/Protocol/Message/Codes.antt =====
-- The numeric codes of operations and errors.
use undelete_master.Base.{ℕ, ◌≤◌, ◌≡◌, refl, arith, ok}
use undelete_master.Protocol.Message.{
  Opcode, opcode_code, opcode_from, BrokerErrorCode, error_code, error_from,
}

pub opcode_from-opcode_code : (o : Opcode) → opcode_from (opcode_code o) ≡ ok o
unfolding opcode_code opcode_from
opcode_from-opcode_code Opcode.hello = refl
opcode_from-opcode_code _ = refl

pub opcode_from_sound : (value : ℕ) (o : Opcode) → opcode_from value ≡ ok o → opcode_code o ≡ value
unfolding opcode_code opcode_from
opcode_from_sound value o h = ground arith

pub opcode_code_bounds : (o : Opcode) → (1 ≤ opcode_code o) × (opcode_code o ≤ 10)
unfolding opcode_code
opcode_code_bounds o = ground arith

pub error_from-error_code : (c : BrokerErrorCode) → error_from (error_code c) ≡ ok c
unfolding error_code error_from
error_from-error_code BrokerErrorCode.invalid_request = refl
error_from-error_code _ = refl

pub error_from_sound :
    (value : ℕ) (c : BrokerErrorCode) → error_from value ≡ ok c → error_code c ≡ value
unfolding error_code error_from
error_from_sound value c h = ground arith

pub error_code_bounds : (c : BrokerErrorCode) → (1 ≤ error_code c) × (error_code c ≤ 10)
unfolding error_code
error_code_bounds c = ground arith
