-- ===== src/Input/Edit.antt =====
-- `Edit` of bookworm-input/src/lib.rs, with the events of a sequence.
use bookworm.Base.{List, Text}
use bookworm.Input.Cursor.{TextEvent}

pub data Edit : Type 0 where
  delete : Edit
  replace append : Text → Edit
  sequence : List TextEvent → Edit
