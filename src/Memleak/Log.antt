-- ===== src/Memleak/Log.antt =====
-- memleak/memleak.cpp, `ml_log` and `ml_log_timestamp`: where a message goes, its text, and the
-- timestamps, for any configuration. The clock, and whether `fopen` opens the file, are arguments.
pub mod Lines
pub mod Runs
mod Tests
use tripping_robot.Prelude.{to_word}
use tripping_robot.Prelude.{ℕ, ◌-◌, ◌^◌, Bool, true, false, List, [], ◌∷◌, ◌++◌}
use tripping_robot.Prelude.{ltb, if◌then◌else◌, add_word, sub_word}
use tripping_robot.Prelude.Decimal.{unsigned, signed, pad}
use tripping_robot.Prelude.Codes.{codes}
use tripping_robot.Memleak.{
  Text, Message, title, tight_title, newline, exited, no_list_memory, records_line, count_only,
  unclean, exceeded, no_memory,
}

-- SS_TRACE and what follows it
abbrev pub trace : Text
trace = codes "Memtrace: "

-- `record->overallocations ? "(OA)" : ""`
abbrev pub over_mark : Bool → Text
over_mark b = if b then codes "(OA)" else []

-- Texts one after the other
abbrev pub join : List Text → Text
join [] = []
join (t ∷ ts) = t ++ join ts

-- What `vfprintf` makes of the formats and their arguments. `list_push_record`:
abbrev pub no_list_memory_text : Text
no_list_memory_text = trace ++ codes "Failed to allocate memory for list\n"

-- `exit_checker`
abbrev pub exited_text : Text
exited_text = trace ++ codes "Application exited\n"

abbrev pub unclean_text : ℕ → Text → ℕ → Bool → Text
unclean_text cnt file line oa = join (
    trace
    ∷ signed false cnt
    ∷ codes " unclean records from "
    ∷ file
    ∷ codes ": "
    ∷ signed false line
    ∷ codes "  "
    ∷ over_mark oa
    ∷ codes "\n"
    ∷ [])

-- `get_memory`. The size is a `size_t`, of which `%u` prints the low 32 bits.
abbrev pub exceeded_text : ℕ → Text → ℕ → Text
exceeded_text size file line = join (
    trace
    ∷ codes "Allocation size ("
    ∷ unsigned (to_word 32 size)
    ∷ codes ") exceeded tolerance level at "
    ∷ file
    ∷ codes ": "
    ∷ signed false line
    ∷ codes "\n"
    ∷ [])

abbrev pub no_memory_text : Text → ℕ → Text
no_memory_text file line = join (
    trace
    ∷ codes "Could not allocate memory at "
    ∷ file
    ∷ codes ": "
    ∷ signed false line
    ∷ codes "\n"
    ∷ [])

-- `memleak_report`
abbrev pub records_text : ℕ → ℕ → Text → ℕ → Bool → Text
records_text cnt mem_total file line oa = join (
    trace
    ∷ pad 4 b' ' (signed false cnt)
    ∷ codes " records, "
    ∷ pad 7 b' ' (unsigned mem_total)
    ∷ codes " bytes from line "
    ∷ file
    ∷ codes ": "
    ∷ signed false line
    ∷ codes "  "
    ∷ over_mark oa
    ∷ codes "\n"
    ∷ [])

-- The text of a message; the ones that are written out here are of `memleak_report`, too.
unfoldable pub text_of : Message → Text
text_of title = trace ++ codes "memleak_report\n"
text_of tight_title = trace
text_of newline = codes "\n"
text_of exited = exited_text
text_of no_list_memory = no_list_memory_text
text_of (records_line cnt mem_total file line oa) = records_text cnt mem_total file line oa
text_of (count_only cnt) = signed false cnt ++ codes " "
text_of (unclean cnt file line oa) = unclean_text cnt file line oa
text_of (exceeded size file line) = exceeded_text size file line
text_of (no_memory file line) = no_memory_text file line

-- `strchr(s, '\n') != NULL` of the format
unfoldable pub has_newline : Message → Bool
has_newline tight_title = false
has_newline (count_only cnt) = false
has_newline _ = true

-- The fields of `struct tm` that are printed.
pub record Tm : Type 0 where
  pub year : ℕ
  pub mon : ℕ
  pub mday : ℕ
  pub hour : ℕ
  pub min : ℕ
  pub sec : ℕ

-- `%02d`
unfoldable pub two : ℕ → Text
two n = if ltb n (2 ^ 31) then pad 2 b'0' (unsigned n) else b'-' ∷ unsigned (2 ^ 32 - n)

unfoldable pub ml_log_timestamp : Tm → Text
ml_log_timestamp tm =
    b'[' ∷ two (sub_word 32 tm.year 100)
    ++ two (add_word 32 tm.mon 1)
    ++ two tm.mday
    ++ b':' ∷ two tm.hour
    ++ two tm.min
    ++ two tm.sec
    ++ b']' ∷ b' ' ∷ []

-- SS_MEMTRACE_LOG, and whether SS_MEMTRACE_LOG_TIMESTAMP is defined.
pub record Config : Type 0 where
  pub path : Text
  pub timestamps : Bool

-- The static variable `LineEnd`, what was written to stderr, and the content of the file.
pub record Log : Type 0 where
  pub line_end : Bool
  pub stderr : Text
  pub file : Text

-- A call returns or calls `exit(1)`.
pub data Written : Type 0 where
  returned exited_with : Log → Written

-- The text goes to the file if there is a path, and to stderr otherwise.
abbrev pub append : Config → Text → Log → Log
append cfg t log = elim cfg.path [
  | [] ↦ record log { stderr = log.stderr ++ t }
  | _ ∷ _ ↦ record log { file = log.file ++ t }
]

-- The timestamp, where one is due, and the new value of `LineEnd`.
unfoldable pub begin_line : Config → Tm → Message → Log → Log
begin_line cfg tm m log =
    if cfg.timestamps
    then (if log.line_end
        then record (append cfg (ml_log_timestamp tm) log) { line_end = has_newline m }
        else record log { line_end = has_newline m })
    else log

-- What is written where the file does not open.
abbrev pub refused : Config → Log → Log
refused cfg log = record log {
  stderr = log.stderr ++ join (codes "Opening " ∷ cfg.path ∷ codes " for logging failed!\n" ∷ []);
}

unfoldable pub write_log : Config → Bool → Tm → Message → Log → Written
write_log cfg opens tm m log = elim cfg.path [
  | [] ↦ returned (append cfg (text_of m) (begin_line cfg tm m log))
  | _ ∷ _ ↦
      if opens
      then returned (append cfg (text_of m) (begin_line cfg tm m log))
      else exited_with (refused cfg log)
]

-- What a call that returned goes on with.
abbrev pub on_return : Written → (Log → Written) → Written
on_return (returned log) k = k log
on_return (exited_with log) k = exited_with log

-- A call: what `fopen` does, the time, and the message.
pub record LogCall : Type 0 where
  pub opens : Bool
  pub now : Tm
  pub message : Message

-- The calls of a run, one after the other, until one ends the program.
unfoldable pub log_all : Config → List LogCall → Log → Written
log_all cfg [] log = returned log
log_all cfg (e ∷ es) log = on_return (write_log cfg e.opens e.now e.message log) (log_all cfg es)
