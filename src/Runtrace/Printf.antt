-- ===== src/Runtrace/Printf.antt =====
-- runtrace/runtrace.c, `tpprintf` of one thread: it claims a print buffer, prints into it, records the
-- message and gives the buffer back.
pub mod Record
mod Tests
use tripping_robot.Prelude.{
  ℕ, zero, suc, true, Option, none, some, ◌==◌, if◌then◌else◌, length, take,
}
use tripping_robot.Runtrace.{
  Build, Text, Cmd, deadlock, pure, ◌>>=◌, ◌>>◌, get, put, need, crash, disabling_err,
}
use tripping_robot.Runtrace.Pool.{Platform, is_null, runtrace_init}
use tripping_robot.Runtrace.Claims.{outside, seeking, holding, seek, release}
use tripping_robot.Runtrace.Trace.{Clock, make_tracept}

-- The loop that looks for a buffer. With no other thread to give one back, a round past all of them
-- is never going to end.
unfoldable pub claim : Build → ℕ → ℕ → Cmd ℕ
claim build zero i = λ s. deadlock
claim build (suc left) i = do
  s ← get
  cs ← need s.vsprint_buffer
  (cs', p) ← need (seek build cs i)
  put (record s { vsprint_buffer = some cs' })
  elim p [
    | outside ↦ crash
    | holding j ↦ pure j
    | seeking j ↦ do
      s ← get
      put (record s { vspb_underrun_notice = if j == 0 then true else s.vspb_underrun_notice })
      claim build left j
  ]

unfoldable pub give_back : Build → ℕ → Cmd (Unit {0})
give_back build i = do
  s ← get
  cs ← need s.vsprint_buffer
  cs' ← need (release build cs i)
  put (record s { vsprint_buffer = some cs' })

-- `text` is what the format and its arguments expand to; `none` is a NULL format. The pointer to the
-- first buffer is read before the facility is initialised.
unfoldable pub tpprintf : Build → Platform → Clock → ℕ → Text → Option Text → Cmd ℕ
tpprintf build platform now line src text = do
  s ← get
  let first = s.vsprint_buffer
  if is_null s.vsprint_buffer
      then disabling_err build >> runtrace_init build platform 1 >> pure tt
      else pure tt
  elim text [
    | none ↦ make_tracept build platform now line src none >> pure 0
    | some t ↦ do
      cs ← need first
      i ← claim build (length cs) 0
      make_tracept build platform now line src (some (take 199 t))
      give_back build i
      pure (length t)
  ]
