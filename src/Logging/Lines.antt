-- ===== src/Logging/Lines.antt =====
-- The length of log lines, and what becomes of long messages.
use trading_matching_engine.Base.{◌+◌, ◌≤◌, ◌<◌, ◌≡◌, sym, ap, ◌∙◌, String, arith}
use trading_matching_engine.Base.Text.{
  text_length, append_text, take_text, text_length-take_text, text_length-append_text,
  take_text_all, take_text-append_text, append_text_assoc,
}
use trading_matching_engine.Logging.{log_line, log_line_max_len}

-- A log line has at most 255 characters. If head and message have at most 254 together, the line is
-- both with a newline behind them; if they have more, the line is cut within them and has no
-- newline of its own.
pub log_line_bounds :
    (head message : String)
    → (text_length (log_line head message) < log_line_max_len)
      × (text_length head + text_length message ≤ 254
          → log_line head message ≡ append_text head (append_text message "\n"))
      × (255 ≤ text_length head + text_length message
          → log_line head message ≡ take_text 255 (append_text head message))
unfolding log_line
log_line_bounds head message =
    let whole = append_text head (append_text message "\n") in
    let size = text_length-append_text head (append_text message "\n") in
    let size' = text_length-append_text message "\n" in
    (
      omega (arith, text_length-take_text 255 whole),
      λ short. take_text_all 255 whole (omega (arith, size, size')),
      λ long.
          ap (take_text 255) (sym (append_text_assoc head message "\n"))
          ∙ take_text-append_text 255 (append_text head message) "\n"
              (omega (arith, text_length-append_text head message)),
    )
