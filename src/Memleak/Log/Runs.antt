-- ===== src/Memleak/Log/Runs.antt =====
-- memleak/memleak.cpp, `ml_log`: what a run of calls leaves in the log, and how it ends.
use tripping_robot.Prelude.{
  ℕ, ◌≡◌, refl, sym, ap, ◌∙◌, Bool, true, false, List, [], ◌∷◌, ◌++◌, arith,
}
use tripping_robot.Prelude.{if◌then◌else◌}
use mathlib.Core.List.{append_assoc, append-nil}
use tripping_robot.Prelude.Codes.{codes}
use tripping_robot.Memleak.{Text, Message}
use tripping_robot.Memleak.Log.{
  text_of, has_newline, Tm, ml_log_timestamp, Config, Log, Written, returned, exited_with,
  begin_line, join, refused, write_log, LogCall, on_return, log_all,
}
use tripping_robot.Memleak.Log.Lines.{
  stamped, at_start, log_of, IsTidy, AllWritten, line_stamped, text_of-IsLine,
}

-- What the messages are written to, and what they are not written to.
abbrev pub target : Config → Log → Text
target cfg log = elim cfg.path [ [] ↦ log.stderr | _ ∷ _ ↦ log.file ]

abbrev pub other : Config → Log → Text
other cfg log = elim cfg.path [ [] ↦ log.file | _ ∷ _ ↦ log.stderr ]

abbrev entry_text : Bool → Bool → Tm → Message → Text
entry_text timestamps start now m =
    if timestamps then stamped (ml_log_timestamp now) start (text_of m) else text_of m

-- What one call leaves, where the file opens.
record IsAfter (cfg : Config) (start : Bool) (now : Tm) (m : Message) (log log' : Log)
    : Type 0 where
  written : target cfg log' ≡ target cfg log ++ entry_text cfg.timestamps start now m
  kept : other cfg log' ≡ other cfg log
  ends : cfg.timestamps ≡ true → log'.line_end ≡ at_start start (text_of m)

write_log-IsAfter :
    (path : Text) (timestamps start : Bool) (now : Tm) (m : Message) (stderr file : Text)
    → IsTidy m
    → (log' : Log) × (write_log
          (record { path = path; timestamps = timestamps })
          true
          now
          m
          (record { line_end = start; stderr = stderr; file = file })
        ≡ returned log')
      × IsAfter
          (record { path = path; timestamps = timestamps })
          start
          now
          m
          (record { line_end = start; stderr = stderr; file = file })
          log'
unfolding write_log begin_line
write_log-IsAfter [] false start now m stderr file h =
    (_, refl, record { written = refl; kept = refl; ends = λ e. ground arith })
write_log-IsAfter (c ∷ path) false start now m stderr file h =
    (_, refl, record { written = refl; kept = refl; ends = λ e. ground arith })
write_log-IsAfter [] true false now m stderr file h =
    let (same, last) =
      line_stamped (ml_log_timestamp now) (has_newline m) false (text_of m) (text_of-IsLine m h) in
    (
      _,
      refl,
      record { written = ap (λ t. stderr ++ t) (sym same); kept = refl; ends = λ e. sym last },
    )
write_log-IsAfter (c ∷ path) true false now m stderr file h =
    let (same, last) =
      line_stamped (ml_log_timestamp now) (has_newline m) false (text_of m) (text_of-IsLine m h) in
    (
      _,
      refl,
      record { written = ap (λ t. file ++ t) (sym same); kept = refl; ends = λ e. sym last },
    )
write_log-IsAfter [] true true now m stderr file h =
    let (same, last) =
      line_stamped (ml_log_timestamp now) (has_newline m) true (text_of m) (text_of-IsLine m h) in
    (
      _,
      refl,
      record {
        written =
            append_assoc stderr (ml_log_timestamp now) (text_of m)
            ∙ ap (λ t. stderr ++ t) (sym same);
        kept = refl;
        ends = λ e. sym last;
      },
    )
write_log-IsAfter (c ∷ path) true true now m stderr file h =
    let (same, last) =
      line_stamped (ml_log_timestamp now) (has_newline m) true (text_of m) (text_of-IsLine m h) in
    (
      _,
      refl,
      record {
        written =
            append_assoc file (ml_log_timestamp now) (text_of m) ∙ ap (λ t. file ++ t) (sym same);
        kept = refl;
        ends = λ e. sym last;
      },
    )

-- A value that matters only with timestamps.
entry_text_cong :
    (timestamps a b : Bool) (now : Tm) (m : Message)
    → (timestamps ≡ true → a ≡ b)
    → entry_text timestamps a now m ≡ entry_text timestamps b now m
entry_text_cong true a b now m h = ap (λ t. entry_text true t now m) (h refl)
entry_text_cong false a b now m h = refl

log_all_from :
    (cfg : Config) (es : List LogCall) (log : Log) (start : Bool)
    → (cfg.timestamps ≡ true → log.line_end ≡ start)
    → AllWritten es
    → (log' : Log) × (log_all cfg es log ≡ returned log')
      × (target cfg log' ≡ target cfg log ++ log_of cfg.timestamps start es)
      × (other cfg log' ≡ other cfg log)
unfolding log_all log_of
log_all_from cfg [] log start at h = (log, refl, sym (append-nil (target cfg log)), refl)
log_all_from cfg (e ∷ es) log start at ((opens, tidy), h) =
    let (log1, writes, after) =
      write_log-IsAfter cfg.path cfg.timestamps log.line_end e.now e.message log.stderr log.file
        tidy in
    let next = λ (t : cfg.timestamps ≡ true).
      after.ends t ∙ ap (λ b. at_start b (text_of e.message)) (at t) in
    let (log2, rest, text, kept) =
      log_all_from cfg es log1 (at_start start (text_of e.message)) next h in
    (
      log2,
      ap (λ w. on_return w (log_all cfg es))
            (ap (λ b. write_log cfg b e.now e.message log) opens ∙ writes)
          ∙ rest,
      text
          ∙ ap (λ t. t ++ log_of cfg.timestamps (at_start start (text_of e.message)) es)
              (after.written
                ∙ ap (λ t. target cfg log ++ t)
                    (entry_text_cong cfg.timestamps log.line_end start e.now e.message at))
          ∙ append_assoc (target cfg log) (entry_text cfg.timestamps start e.now e.message)
              (log_of cfg.timestamps (at_start start (text_of e.message)) es),
      kept ∙ after.kept,
    )

-- Whatever is logged, where `fopen` opens the file and no name of a file holds a newline, all calls
-- of `ml_log` return. The file that is configured, or stderr if there is none, then has the texts of the
-- messages behind what it had; with timestamps there is one before the first character of each line, the
-- time being that of the call which wrote it, and nowhere else. Nothing is written elsewhere.
pub log_all-log_of :
    (cfg : Config) (es : List LogCall) (log : Log)
    → AllWritten es
    → (log' : Log) × (log_all cfg es log ≡ returned log')
      × (target cfg log' ≡ target cfg log ++ log_of cfg.timestamps log.line_end es)
      × (other cfg log' ≡ other cfg log)
log_all-log_of cfg es log h = log_all_from cfg es log log.line_end (λ t. refl) h

on_return_assoc :
    (w : Written) (k l : Log → Written)
    → on_return w (λ log. on_return (k log) l) ≡ on_return (on_return w k) l
on_return_assoc (returned log) k l = refl
on_return_assoc (exited_with log) k l = refl

log_all-append :
    (cfg : Config) (es fs : List LogCall) (log : Log)
    → log_all cfg (es ++ fs) log ≡ on_return (log_all cfg es log) (log_all cfg fs)
unfolding log_all
log_all-append cfg [] fs log = refl
log_all-append cfg (e ∷ es) fs log =
    ap (λ k. on_return (write_log cfg e.opens e.now e.message log) k)
      (λ i log1. log_all-append cfg es fs log1 i)
    ∙ on_return_assoc (write_log cfg e.opens e.now e.message log) (log_all cfg es) (log_all cfg fs)

module _ (c : ℕ) (path : Text) (timestamps : Bool) where
  -- With a file that is configured.
  abbrev pub to_file : Config
  to_file = record { path = c ∷ path; timestamps = timestamps }

  write_refused :
      (e : LogCall) (rest : List LogCall) (log : Log)
      → e.opens ≡ false
      → log_all to_file (e ∷ rest) log ≡ exited_with (refused to_file log)
  unfolding log_all write_log
  write_refused e rest log h = rw h refl

  -- Where a file is configured, and some calls can open it and the next one cannot, the next one ends
  -- the program: the file has the lines of the calls before it, and stderr has the complaint.
  pub log_all-refused :
      (es rest : List LogCall) (e : LogCall) (log : Log)
      → AllWritten es
      → e.opens ≡ false
      → (log' : Log) × (log_all to_file (es ++ e ∷ rest) log ≡ exited_with log')
        × (log'.file ≡ log.file ++ log_of timestamps log.line_end es)
        × (log'.stderr
            ≡ log.stderr
              ++ join (codes "Opening " ∷ (c ∷ path) ∷ codes " for logging failed!\n" ∷ []))
  log_all-refused es rest e log h out =
      let (log1, runs, text, kept) = log_all-log_of to_file es log h in
      (
        refused to_file log1,
        log_all-append to_file es (e ∷ rest) log
            ∙ ap (λ w. on_return w (log_all to_file (e ∷ rest))) runs
            ∙ write_refused e rest log1 out,
        text,
        ap (λ t. t ++ join (codes "Opening " ∷ (c ∷ path) ∷ codes " for logging failed!\n" ∷ []))
            kept,
      )
