-- ===== src/Lifecycle/Loop.antt =====
-- crates/lab-core/src/runtime/controllers.rs and physical_io.rs: one registered controller with the
-- authority of its output, its reference and the buffer of its input. The Runtime's clock of output
-- time and its watchdog run before every operation.
use lab_runtime.Base.{ℕ, ltb, if◌then◌else◌, err, Act}
use lab_runtime.Model.{Error, OutputError}
use lab_runtime.Output.Authority.{OutputAuthority}
use lab_runtime.Output.Commands.{watchdog}
use lab_runtime.Reference.Runtime.{RuntimeReference}
use lab_runtime.Signals.Buffer.{SignalBuffer}
use lab_runtime.Control.Native.{NativeController}

pub record Loop : Type 0 where
  pub control : NativeController
  pub authority : OutputAuthority
  pub reference : RuntimeReference
  pub samples : SignalBuffer
  pub output_time : ℕ

abbrev pub Method : Type 0 → Type 0
Method A = Act Loop Error A

-- A method of the authority, as a method of the loop.
abbrev pub on_authority : {A : Type 0} → Act OutputAuthority Error A → Method A
on_authority m l = let t = m l.authority in (t.0, record l { authority = t.1 })

abbrev pub set_control : (NativeController → NativeController) → Loop → Loop
set_control f l = record l { control = f l.control }

-- Time of output operations does not go back, and the watchdog sees every time.
unfoldable pub check_output_time : ℕ → Method (Unit {0})
check_output_time at l =
    if ltb at l.output_time
    then (err (Error.output OutputError.invalid_time), l)
    else on_authority (watchdog at) (record l { output_time = at })
