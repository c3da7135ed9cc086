-- ===== src/Http.antt =====
-- The parts of net/http's requests and responses that Cachy reads or writes.
use cachy.Base.{ℕ, List}
use cachy.Text.{Bytes}

pub record Request : Type 0 where
  pub method : Bytes
  pub path : Bytes
  pub raw_query : Bytes
  pub headers : List (Bytes × List Bytes)
  pub body : Bytes

pub record Response : Type 0 where
  pub status : ℕ
  pub headers : List (Bytes × List Bytes)
  pub body : Bytes
