-- ===== src/Tui/Scroll.antt =====
-- bookworm-tui/src/ui/scrollable_text.rs: `ScrollableText`, whose offset stays within the text, and
-- `BlindOffset`, which learns the height of its text only when it is drawn.
pub mod Limits
use bookworm.Base.{ℕ, ◌+◌, ◌-◌, ◌^◌, min, Bool, true, false, [], ◌∷◌, Text, ◌==◌, if◌then◌else◌}

-- `usize::MAX` on a machine of 64 bits, and `usize::saturating_add`.
abbrev pub usize_max : ℕ
usize_max = 2 ^ 64 - 1

abbrev pub saturating_add : ℕ → ℕ → ℕ
saturating_add a b = min (a + b) usize_max

-- `lines().count()`, with the flag that a line has begun.
unfoldable pub count_lines : Bool → Text → ℕ
count_lines begun [] = if begun then 1 else 0
count_lines begun (c ∷ s) =
    let ended = count_lines false s in
    let inside = count_lines true s in if c == 0x0a then 1 + ended else inside

pub record ScrollableText : Type 0 where
  pub text : Text
  pub height : ℕ
  pub offset : ℕ
  pub window_height : ℕ

unfoldable pub new : Text → ScrollableText
unfolding count_lines
new s = record { text = s; height = count_lines false s; offset = 0; window_height = 0 }

pub record BlindOffset : Type 0 where
  pub offset : ℕ
  pub window_height : ℕ

-- The methods that change a value of either type.
pub data Scroll : Type 0 where
  scroll_down scroll_up refresh_height : ℕ → Scroll
  page_up page_down home end : Scroll

-- `ScrollableText::scroll_down`: `saturating_sub` is the subtraction on ℕ.
unfoldable pub do_scroll_down : ℕ → ScrollableText → ScrollableText
do_scroll_down n t = record t {
  offset = min (t.height - t.window_height) (saturating_add t.offset n);
}

unfoldable pub do_scroll_up : ℕ → ScrollableText → ScrollableText
do_scroll_up n t = record t { offset = t.offset - n }

unfoldable pub refresh_window_height : ℕ → ScrollableText → ScrollableText
refresh_window_height h t = record t { window_height = h }

unfoldable pub scroll : Scroll → ScrollableText → ScrollableText
unfolding do_scroll_down do_scroll_up refresh_window_height
scroll (scroll_down n) t = do_scroll_down n t
scroll (scroll_up n) t = do_scroll_up n t
scroll page_up t = do_scroll_up t.window_height t
scroll page_down t = do_scroll_down t.window_height t
scroll home t = record t { offset = 0 }
scroll end t = record t { offset = t.height - t.window_height }
scroll (refresh_height h) t = refresh_window_height h t

-- `BlindOffset::refresh_window_height`
unfoldable pub blind_refresh : ℕ → BlindOffset → BlindOffset
blind_refresh h b = record b { window_height = h }

-- The methods of `BlindOffset`.
unfoldable pub blind_scroll : Scroll → BlindOffset → BlindOffset
unfolding blind_refresh
blind_scroll (scroll_down n) b = record b { offset = saturating_add b.offset n }
blind_scroll (scroll_up n) b = record b { offset = b.offset - n }
blind_scroll page_up b = record b { offset = b.offset - b.window_height }
blind_scroll page_down b = record b { offset = saturating_add b.offset b.window_height }
blind_scroll home b = record b { offset = 0 }
blind_scroll end b = record b { offset = usize_max }
blind_scroll (refresh_height h) b = blind_refresh h b

unfoldable pub fit_offset_in_height : ℕ → BlindOffset → BlindOffset
fit_offset_in_height height b = record b { offset = min (height - b.window_height) b.offset }
