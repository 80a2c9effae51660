-- ===== src/Logging.antt =====
-- Common/logging.h: the line that the LOG macros format, the queue of lines, and the thread that
-- writes them to the file. Lines are taken to be ASCII, so that a character is a byte.
pub mod Lines
pub mod File
use trading_matching_engine.Base.{
  ℕ, zero, suc, ◌+◌, ◌-◌, ◌*◌, ◌/◌, String, List, [], ◌∷◌, Option, none, some,
}
use trading_matching_engine.Base.Text.{append_text, take_text}
use trading_matching_engine.Queue.{LfQueue, new_queue, push, get_next_to_read, update_read_index}

abbrev pub log_line_max_len : ℕ
log_line_max_len = 256

abbrev pub log_queue_size : ℕ
log_queue_size = 8 * 1024 * 1024 / 256

-- What the background thread has written to the file, and the queue of lines.
pub record Logger : Type 0 where
  pub file : String
  pub queue : LfQueue String

unfoldable pub new_logger : Logger
unfolding new_queue
new_logger = record { file = ""; queue = new_queue log_queue_size "" }

-- `std::snprintf(buffer, LOG_LINE_MAX_LEN, ...)`: what fits beside the closing NUL.
abbrev pub snprintf : String → String
snprintf s = take_text (log_line_max_len - 1) s

abbrev pub concat_texts : List String → String
concat_texts [] = ""
concat_texts (s ∷ ss) = append_text s (concat_texts ss)

-- What the macro puts in front of the message: the time and the place of the call as texts.
abbrev pub line_head : String → String → String → String → String → String
line_head time level file_name line function =
    concat_texts (time ∷ " [" ∷ level ∷ "] [" ∷ file_name ∷ ":" ∷ line ∷ " " ∷ function ∷ "] " ∷ [])

-- The line that `LOG_LINE` formats for a message.
unfoldable pub log_line : String → String → String
log_line head message = snprintf (append_text head (append_text message "\n"))

unfoldable pub push_line : String → Logger → Logger
unfolding push
push_line line l = record l { queue = push (snprintf line) l.queue }

-- The inner loop of `flushQueue`, as long as the queue has lines; a line is written before the
-- read index moves. `none` is the assertion of `updateReadIndex`.
unfoldable pub flush_queue : ℕ → Logger → Option Logger
unfolding get_next_to_read update_read_index
flush_queue zero l = some l
flush_queue (suc fuel) l = elim (get_next_to_read l.queue) [
  | none ↦ some l
  | some line ↦ elim (update_read_index l.queue) [
    | none ↦ none
    | some queue ↦ flush_queue fuel (record { file = append_text l.file line; queue = queue })
  ]
]
