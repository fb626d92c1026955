-- ===== src/Ton/Cells.antt =====
-- Cells and slices of @ton/ton, as the operations that the program calls on them. An operation that
-- throws gives `none`; otherwise it gives a value and the slice that is left.
use vnst_be.Base.{ℕ, Bool, Option, List, Text}

pub record Cells (Cell Slice : Type 0) : Type 0 where
  pub begin_parse : Cell → Slice
  pub load_uint : ℕ → Slice → Option (ℕ × Slice)
  pub load_buffer : ℕ → Slice → Option (List ℕ × Slice)
  pub load_bit : Slice → Option (Bool × Slice)
  pub load_coins : Slice → Option (ℕ × Slice)
  pub load_ref : Slice → Option (Cell × Slice)
  pub load_maybe_ref : Slice → Option (Option Cell × Slice)
  -- `loadAddress().toRawString()`
  pub load_address : Slice → Option (Text × Slice)
  pub equals : Cell → Cell → Bool
