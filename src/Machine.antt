-- ===== src/Machine.antt =====
-- Runs of the allocators: a result and a new state, a fault (an access through a null pointer) or
-- a loop that ran out of fuel.
use ion_os.Base.{Option, none, some}

pub data Run (S A : Type 0) : Type 0 where
  done : A → S → Run S A
  fault : Run S A
  out_of_fuel : Run S A

module _ {S A B : Type 0} where
  -- The rest of a run.
  abbrev pub and_then : Run S A → (A → S → Run S B) → Run S B
  and_then (done a s) next = next a s
  and_then fault next = fault
  and_then out_of_fuel next = out_of_fuel

  -- A bounded loop that may have run out of fuel.
  abbrev pub bounded : Option A → (A → Run S B) → Run S B
  bounded none next = out_of_fuel
  bounded (some a) next = next a
