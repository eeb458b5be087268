-- ===== src/Input/Command/Sound.antt =====
-- What the methods of `CommandString` (bookworm-input/src/user_input.rs) keep, and what is shown.
use bookworm.Base.{
  ℕ, ◌≡◌, Bool, true, false, ◌&&◌, Option, none, some, is_some, List, Text, arith, ◌>>=◌,
}
use bookworm.Input.Cursor.{CursoredText, IsValid, TextEvent, step}
use bookworm.Input.Recorder.Replay.{Returns, Returns-step}
use bookworm.Input.Command.{
  CommandString, write_back, type_char, remove_char, refresh_autofill, fill, to_string, Call, type,
  remove, move, clear_line, refresh, complete, call,
}

-- The text is valid, and a completion that is shown has no open end.
pub record IsSound (c : CommandString) : Type 0 where
  pub valid : IsValid c.cursored_text
  pub closed : (is_some c.autofilled && c.open_end) ≡ false

abbrev pub Keeps : Option CommandString → Type 0
Keeps none = ⊥
Keeps (some c) = IsSound c

write_back-IsSound :
    (c : CommandString) → IsSound c → IsSound (write_back c) × ((write_back c).autofilled ≡ none)
unfolding write_back
write_back-IsSound c h = ground arith

stepped :
    (e : TextEvent) (t : CursoredText) (f : CursoredText → CommandString)
    → IsValid t
    → ((t' : CursoredText) → IsValid t' → IsSound (f t'))
    → Keeps (step e t >>= λ t'. some (f t'))
stepped e t f h k = on_result (step e t) (Returns-step e t h)
  where
    on_result : (o : Option CursoredText) → Returns o → Keeps (o >>= λ t'. some (f t'))
    on_result none r = r
    on_result (some t') r = k t' r

-- What is shown of the command line is what `write_back` stores, character for character.
to_string-write_back :
    (c : CommandString) → IsSound c → to_string c ≡ (write_back c).cursored_text.text
unfolding to_string write_back
to_string-write_back c h = ground arith

written :
    (c : CommandString)
    → IsSound c
    → (t : CursoredText) → IsValid t
    → (open_end : Bool)
    → IsSound (record (write_back c) { cursored_text = t; auto_fill = none; open_end = open_end })
written c h t v open_end = record { valid = v; closed = ground (arith, (write_back-IsSound c h).1) }

type_char-IsSound : (ch : ℕ) (c : CommandString) → IsSound c → Keeps (type_char ch c)
unfolding type_char
type_char-IsSound ch c h =
    stepped (TextEvent.push ch) (write_back c).cursored_text _ (write_back-IsSound c h).0.valid
      (λ t v. written c h t v (write_back c).open_end)

remove_char-IsSound : (e : TextEvent) (c : CommandString) → IsSound c → Keeps (remove_char e c)
unfolding remove_char
remove_char-IsSound e c h =
    stepped e (write_back c).cursored_text _ (write_back-IsSound c h).0.valid
      (λ t v. written c h t v true)

module _ (glob : Text → Option (List (Option Text))) (sort : List Text → List Text)
    (is_dir : Text → Bool) where
  refresh_autofill-IsSound :
      (c : CommandString) → IsSound c → IsSound (refresh_autofill glob sort is_dir c).0
  unfolding refresh_autofill
  refresh_autofill-IsSound c h = ground arith

  fill-IsSound :
      (dir : Bool) (c : CommandString) → IsSound c → IsSound (fill glob sort is_dir dir c)
  unfolding fill
  fill-IsSound dir c h = ground arith

  -- No method panics on a sound command line, and each leaves it sound, whatever the completions.
  pub call-IsSound : (k : Call) (c : CommandString) → IsSound c → Keeps (call glob sort is_dir k c)
  unfolding call
  call-IsSound (type ch) c h = type_char-IsSound ch c h
  call-IsSound (remove e) c h = remove_char-IsSound e c h
  call-IsSound (move e) c h =
      stepped e c.cursored_text _ h.valid (λ t v. record { valid = v; closed = h.closed })
  call-IsSound clear_line c h = ground arith
  call-IsSound refresh c h = refresh_autofill-IsSound c h
  call-IsSound (complete dir) c h = fill-IsSound dir c h
