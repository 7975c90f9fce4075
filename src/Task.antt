-- ===== src/Task.antt =====
-- internal/task: the offer and result protocol between two nodes.
-- This file has the data; the children have the operations, and below them the proofs.
pub mod Offer
pub mod Outcome
use edge_grid.Prelude.{ℕ, Bool, Text, Option}
use edge_grid.Prelude.Int.{ℤ}

-- taskWireVersion and resultWireVersion
abbrev pub task_wire_version : ℕ
task_wire_version = 1

abbrev pub result_wire_version : ℕ
result_wire_version = 1

-- 64 * 1024 and 128 * 1024
abbrev pub max_task_size : ℕ
max_task_size = 65_536

abbrev pub max_result_size : ℕ
max_result_size = 131_072

pub record Requirements : Type 0 where
  pub cpu_cores : ℤ
  pub memory_mb : ℤ
  pub gpu : Bool

pub record Task : Type 0 where
  pub id : Text
  pub kind : Text
  pub requirements : Requirements
  pub input : Text

pub data ResultStatus : Type 0 where
  running done failed interrupted unknown : ResultStatus
  other : Text → ResultStatus  -- any other string of the JSON

pub record ResultRequest : Type 0 where
  pub task_id : Text

pub record ResultResponse : Type 0 where
  pub status : ResultStatus
  pub output : Text
  pub error : Text

-- github.com/google/uuid: `parse_error` is the text of uuid.Parse's error, or `none` where the text
-- is a UUID.
pub record Uuids : Type 0 where
  pub parse_error : Text → Option Text
