-- ===== src/Kv/Results.antt =====
-- What the operations of the store return, and where a key is found (crates/rdows-kv/src/kv.rs).
use rdows.Prelude.{ℕ, ◌*◌, List, ◌++◌, Bool, Option}
use rdows.Bytes.Texts.{text}
use rdows.Kv.Slot.{slot_size}
use rdows.Kv.Dump.{hex_offset}

pub record PutResult : Type 0 where
  pub operation : List ℕ
  pub slot : ℕ
  pub offset : List ℕ
  pub bytes : ℕ
  pub key : List ℕ
  pub value : List ℕ
  pub probes : ℕ
  pub update : Bool

pub record GetResult : Type 0 where
  pub operation : List ℕ
  pub slot : ℕ
  pub offset : List ℕ
  pub bytes : ℕ
  pub key : List ℕ
  pub value : List ℕ
  pub probes : ℕ
  pub raw_hex : List (List ℕ)

pub record DeleteResult : Type 0 where
  pub operation : List ℕ
  pub slot : ℕ
  pub offset : List ℕ
  pub bytes : ℕ
  pub key : List ℕ
  pub probes : ℕ
  pub found : Bool

pub record SlotInfo : Type 0 where
  pub index : ℕ
  pub offset : List ℕ
  pub occupied : Bool
  pub key : Option (List ℕ)
  pub value : Option (List ℕ)

-- `format!("0x{:04X}", idx * SLOT_SIZE)`
unfoldable pub offset_text : ℕ → List ℕ
offset_text idx = text "0x" ++ hex_offset (idx * slot_size)

-- Where the probing of a key ends: at an empty slot, at the slot with the key, or nowhere, after all
-- slots. With the index, the number of probes, and what the slot holds.
pub data Probe : Type 0 where
  vacant : ℕ → ℕ → Probe
  found : ℕ → ℕ → List ℕ → List ℕ → Probe
  exhausted : Probe
