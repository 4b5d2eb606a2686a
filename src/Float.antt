-- ===== src/Float.antt =====
-- Go's float64, which is not modelled: its values and the operations that the program calls are an
-- argument of the definitions that use them.
use statsd_bridge.Prelude.{ℕ, Bool, Bytes}

pub record Float : Type 1 where
  pub Value : Type 0
  pub zero : Value
  pub one : Value
  -- the constant 1000
  pub thousand : Value
  -- the decimal constant n / 10 ^ k
  pub decimal : ℕ → ℕ → Value
  -- strconv.ParseFloat(s, 64): the value, and whether err is nil
  pub parse : Bytes → Value × Bool
  pub mul : Value → Value → Value
  pub div : Value → Value → Value
  -- x < y and x == y
  pub lt : Value → Value → Bool
  pub eq : Value → Value → Bool
  -- the rounds of a loop that counts from 0 up to int(x): 0 if int(x) is not positive
  pub rounds : Value → ℕ
