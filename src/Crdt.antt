-- ===== src/Crdt.antt =====
-- crdtlib/crdtlib.go: the values of the replicated store of statistics, and the arguments and
-- replies of its calls. Keys and client ids are `uint64`, which the code only compares.
use cs416_tanks.Base.{ℕ, Bool}
use cs416_tanks.Base.Int.{ℤ, pos}

pub record ValueType : Type 0 where
  pub num_kills : ℤ
  pub num_deaths : ℤ

pub record GetArg : Type 0 where
  pub client_id : ℕ
  pub key : ℕ

pub record GetReply : Type 0 where
  pub ok : Bool
  pub has_already : Bool
  pub unavailable : Bool
  pub value : ValueType

pub record PutArg : Type 0 where
  pub key : ℕ
  pub value : ValueType

pub record PutReply : Type 0 where
  pub ok : Bool

-- The zero value of the struct, which a read of a missing key returns.
abbrev pub zero_value : ValueType
zero_value = record { num_kills = pos 0; num_deaths = pos 0 }
