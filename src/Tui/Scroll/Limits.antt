-- ===== src/Tui/Scroll/Limits.antt =====
-- The limits of the two offsets of bookworm-tui/src/ui/scrollable_text.rs.
use bookworm.Base.{ℕ, ◌-◌, ◌≤◌, ◌≡◌, min, [], refl, arith}
use bookworm.Tui.Scroll.{
  usize_max, ScrollableText, BlindOffset, Scroll, scroll_down, scroll_up, refresh_height, page_up,
  page_down, home, end, do_scroll_down, do_scroll_up, scroll, blind_scroll, fit_offset_in_height,
  refresh_window_height, blind_refresh,
}

-- The last offset at which the window is full, or 0 if it is higher than the text.
abbrev pub limit : ScrollableText → ℕ
limit t = t.height - t.window_height

-- The offset is cut at its limit.
abbrev pub cut : ScrollableText → ScrollableText
cut t = record t { offset = min (limit t) t.offset }

-- The text of `height` lines on which a `BlindOffset` stands.
abbrev pub text_of : ℕ → BlindOffset → ScrollableText
text_of height b = record {
  text = [];
  height = height;
  offset = b.offset;
  window_height = b.window_height;
}

-- The methods after which the offset is within its limit: not a change of the height of the window.
abbrev pub IsWithin : Scroll → ScrollableText → Type 0
IsWithin (refresh_height h) t = Unit {0}
IsWithin e t = t.offset ≤ limit t

-- From an offset within the limit, a `BlindOffset` that runs one method and is fitted right after it
-- stands where a `ScrollableText` of that height stands after the same method, with its offset cut
-- at the limit. After the methods that scroll that cuts nothing, since no sum overflows and the
-- offset is within its limit; a change of the height of the window leaves the offset, which may
-- then lie behind the limit.
pub fit_offset_in_height-blind_scroll :
    (e : Scroll) (height : ℕ) (b : BlindOffset)
    → height ≤ usize_max
    → b.offset ≤ height - b.window_height
    → (text_of height (fit_offset_in_height height (blind_scroll e b))
        ≡ cut (scroll e (text_of height b)))
      × IsWithin e (scroll e (text_of height b))
unfolding scroll do_scroll_down do_scroll_up blind_scroll fit_offset_in_height blind_refresh
    refresh_window_height
fit_offset_in_height-blind_scroll (scroll_down n) height b h k = ground arith
fit_offset_in_height-blind_scroll (scroll_up n) height b h k = ground arith
fit_offset_in_height-blind_scroll page_up height b h k = ground arith
fit_offset_in_height-blind_scroll page_down height b h k = ground arith
fit_offset_in_height-blind_scroll home height b h k = ground arith
fit_offset_in_height-blind_scroll end height b h k = ground arith
fit_offset_in_height-blind_scroll (refresh_height w) height b h k = (refl, tt)
