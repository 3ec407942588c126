-- ===== src/Memleak/Log/Tests.antt =====
-- memleak/memleak.cpp, `ml_log`: the theorems at a concrete run of calls.
use tripping_robot.Prelude.{◌≡◌, refl, true, false, List, [], ◌∷◌, ◌++◌, arith}
use tripping_robot.Prelude.Decimal.{unsigned, signed, digits, pad}
use tripping_robot.Prelude.Codes.{codes}
use tripping_robot.Memleak.{newline, exited, tight_title, count_only, exceeded}
use tripping_robot.Memleak.Log.{
  Log, LogCall, Tm, returned, exited_with, log_all, text_of, two, ml_log_timestamp, has_newline,
  begin_line, write_log, join,
}
use tripping_robot.Memleak.Log.Lines.{log_of, AllWritten}
use tripping_robot.Memleak.Log.Runs.{to_file, log_all-log_of, log_all-refused}

-- 2015-03-01 12:05:09
abbrev noon : Tm
noon = record { year = 115; mon = 2; mday = 1; hour = 12; min = 5; sec = 9 }

abbrev later : Tm
later = record noon { sec = 10 }

abbrev calls : List LogCall
calls =
    record { opens = true; now = noon; message = tight_title }
    ∷ record { opens = true; now = noon; message = count_only 3 }
    ∷ record { opens = true; now = noon; message = newline }
    ∷ record { opens = true; now = later; message = exceeded 500 (codes "a.c") 12 }
    ∷ []

abbrev calls_written : AllWritten calls
calls_written = ground arith

abbrev last_call : LogCall
last_call = record { opens = false; now = later; message = exited }

abbrev empty : Log
empty = record { line_end = true; stderr = []; file = [] }

log_all-log_of_example :
    (log' : Log) × (log_all (to_file b'l' [] true) calls empty ≡ returned log')
    × (log'.file ≡ log_of true true calls)
    × (log'.stderr ≡ [])
log_all-log_of_example = log_all-log_of (to_file b'l' [] true) calls empty calls_written

log_all-refused_example :
    (log' : Log) × (log_all (to_file b'l' [] true) (calls ++ last_call ∷ last_call ∷ []) empty
      ≡ exited_with log')
    × (log'.file ≡ log_of true true calls)
    × (log'.stderr ≡ join (codes "Opening " ∷ codes "l" ∷ codes " for logging failed!\n" ∷ []))
log_all-refused_example =
    log_all-refused b'l' [] true calls (last_call ∷ []) last_call empty calls_written refl

-- The text of that log.
log_run :
    log_all (to_file b'l' [] true) calls empty
    ≡ returned (record {
      line_end = true;
      stderr = [];
      file =
          codes
            "[150301:120509] Memtrace: 3 \n[150301:120510] Memtrace: Allocation size (500) exceeded tolerance level at a.c: 12\n";
    })
unfolding log_all write_log begin_line text_of ml_log_timestamp two has_newline unsigned signed
    digits pad
log_run = refl
