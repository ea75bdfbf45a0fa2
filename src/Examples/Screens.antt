-- ===== src/Examples/Screens.antt =====
-- A text of two lines in the dashboard's text area, and a peer's text that would restyle the frame.
use claude_ipc.Base.{
  ℕ, ◌*◌, true, List, every, keep, suc, ◌-◌, ◌≤◌, max, min, Text, txt, [], ◌∷◌, ◌++◌, ◌≡◌, refl,
  arith, ltb, eqb, length, if◌then◌else◌,
}
use claude_ipc.Textarea.{
  EditState, cursor_pos, move_vertical, text_lines, back, ahead, types, erases, climbs, goes_end,
  press_all,
}
use claude_ipc.Textarea.Cursor.{line_length, press_all-InText}
use claude_ipc.Textarea.Columns.{cursor_pos-move_vertical}
use claude_ipc.Dashboard.{
  inline_head, sanitize_inline, drop_osc, drop_csi, drop_escape, mark_newlines,
}
use claude_ipc.Models.{Message, make_message, query}
use claude_ipc.Dashboard.Traffic.{
  zeros, in_span, traffic, max_of, bars, traffic_sparkline, total, is_bar, traffic_sparkline-Bars,
}
use claude_ipc.Dashboard.OneLine.{Clean, inline_head-Clean, csi, written, sanitize_inline-written}

-- The cursor stands behind "long", at the end of the text.
abbrev draft : EditState
draft = record { text = txt "ab" ++ 10 ∷ txt "long"; cursor = 7 }

press_all-InText_example :
    (press_all draft (climbs back ∷ types (13 ∷ 9 ∷ []) ∷ erases ∷ goes_end ∷ [])).cursor
    ≤ length (press_all draft (climbs back ∷ types (13 ∷ 9 ∷ []) ∷ erases ∷ goes_end ∷ [])).text
press_all-InText_example =
    press_all-InText draft (climbs back ∷ types (13 ∷ 9 ∷ []) ∷ erases ∷ goes_end ∷ [])
      (omega arith)

cursor_pos-move_vertical_example :
    (cursor_pos (move_vertical draft ahead) ≡ (
      if ltb (suc (cursor_pos draft).row) (length (text_lines draft))
      then record {
        row = suc (cursor_pos draft).row;
        col = min (cursor_pos draft).col (line_length draft.text (suc (cursor_pos draft).row));
      }
      else cursor_pos draft))
    × (cursor_pos (move_vertical draft back) ≡ (
        if eqb (cursor_pos draft).row 0 then cursor_pos draft else record {
          row = (cursor_pos draft).row - 1;
          col = min (cursor_pos draft).col (line_length draft.text ((cursor_pos draft).row - 1));
        }))
cursor_pos-move_vertical_example = cursor_pos-move_vertical draft

-- "red", coloured and with a title and a forged row behind it.
abbrev hostile : Text
hostile = 27 ∷ txt "[31mred" ++ (27 ∷ txt "]title" ++ 7 ∷ 10 ∷ txt "row")

inline_head-Clean_example :
    Clean (inline_head hostile 5) × (length (inline_head hostile 5) ≤ max 1 5)
inline_head-Clean_example = inline_head-Clean hostile 5

sanitize_inline-written_example :
    sanitize_inline (txt "a" ++ written (csi (txt "1;31") b'm') (txt "red")) ≡ txt "ared"
sanitize_inline-written_example =
    sanitize_inline-written (txt "a") (csi (txt "1;31") b'm') (txt "red") refl
      (refl, omega arith, omega arith) refl

hostile-inline_head : inline_head hostile 5 ≡ txt "red" ++ (0x2424 ∷ txt "…")
unfolding inline_head sanitize_inline drop_osc drop_csi drop_escape mark_newlines
hostile-inline_head = refl

abbrev sent_at : ℕ → Message
sent_at ts = make_message (txt "m") query (txt "ann") (txt "bob") ts

-- Two messages of the last hour, one of an hour ago, and one that has left a span of two hours.
abbrev recent : List Message
recent = sent_at 7200 ∷ sent_at 7199 ∷ sent_at 3700 ∷ sent_at 10 ∷ []

traffic_sparkline-Bars_example :
    (length (traffic_sparkline recent 7300 2 3600) ≡ 2)
    × (every is_bar (traffic_sparkline recent 7300 2 3600) ≡ true)
    × (total (traffic 7300 2 3600 recent (zeros 2))
        ≡ length (keep (in_span 7300 (2 * 3600)) recent))
traffic_sparkline-Bars_example = traffic_sparkline-Bars recent 7300 2 3600

recent-traffic_sparkline : traffic_sparkline recent 7300 2 3600 ≡ 0x2585 ∷ 0x2588 ∷ []
unfolding traffic_sparkline traffic zeros max_of bars
recent-traffic_sparkline = refl
