-- ===== src/Flate/Checkpoint.antt =====
-- gsip/internal/flate/inflate.go, `Checkpoint` and `Header`: where a decoder can be resumed.
use targz.Prelude.{ℕ, List, Bool, Option}

-- Strings are the lists of their bytes; a nil pointer is `none`.
pub record Header : Type 0 where
  pub comment : List ℕ
  pub extra : List ℕ
  pub mod_time : Option ℕ
  pub name : List ℕ
  pub os : Option ℕ

-- `in_pos` and `out_pos` are the fields `In` and `Out`.
pub record Checkpoint : Type 0 where
  pub in_pos : ℕ
  pub out_pos : ℕ
  pub b : ℕ
  pub nb : ℕ
  pub hist : List ℕ
  pub wr_pos : ℕ
  pub rd_pos : ℕ
  pub full : Bool
  pub empty : Bool
  pub gzip_header : Option Header

unfoldable pub history : Checkpoint → List ℕ
history c = c.hist

unfoldable pub set_history : Checkpoint → List ℕ → Checkpoint
set_history c b = record c { hist = b }

unfoldable pub is_empty : Checkpoint → Bool
is_empty c = c.empty

unfoldable pub bytes_read : Checkpoint → ℕ
bytes_read c = c.in_pos

unfoldable pub bytes_written : Checkpoint → ℕ
bytes_written c = c.out_pos
