-- ===== src/Consumer/Message.antt =====
-- Kafka messages, and `headerValue` of consumer/payment_consumer.go.
use finflow.Base.{ℕ, String, List, [], ◌∷◌, str_eq, if◌then◌else◌}

pub record Header : Type 0 where
  pub key : String
  pub value : String

-- `kafka.Message`, with the value that its bytes encode.
pub record Message (V : Type 0) : Type 0 where
  pub topic : String
  pub partition : ℕ
  pub offset : ℕ
  pub key : String
  pub value : V
  pub headers : List Header

unfoldable pub header_value : List Header → String → String
header_value [] key = ""
header_value (h ∷ headers) key = if str_eq h.key key then h.value else header_value headers key
