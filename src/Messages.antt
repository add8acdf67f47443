-- ===== src/Messages.antt =====
-- The protocol's messages (src/proto/swandns.rs, generated from proto/swandns.proto). A `u32` is a
-- number, whose range is stated where it matters; an `i64` is an integer.
use swandns.Prelude.{ℕ, ℤ, Bool, String}

pub record PingRequest : Type 0 where
  pub message : String

pub record PingReply : Type 0 where
  pub message : String

pub record UpsertRecordRequest : Type 0 where
  pub name : String
  pub type : String
  pub value : String
  pub ttl : ℕ

pub record RecordReply : Type 0 where
  pub name : String
  pub type : String
  pub content : String
  pub ttl : ℕ
  pub created_at : ℤ
  pub updated_at : ℤ
  pub healthy : Bool

-- the two messages without fields
abbrev pub RecordsQueryRequest : Type 0
RecordsQueryRequest = Unit

abbrev pub EmptyReply : Type 0
EmptyReply = Unit

pub record FindUniqueRecordRequest : Type 0 where
  pub name : String
  pub type : String
