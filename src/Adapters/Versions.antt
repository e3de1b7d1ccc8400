-- ===== src/Adapters/Versions.antt =====
-- helper/opatchy_helper/adapters/arch.py: the failures of its commands, and the sign of `vercmp`.
use opatchy.Base.{
  Option, Result, String, [], decimal, decode_utf8, err, if◌then◌else◌, none, ok, some, string_eq,
  strip, ◌+++◌, ◌==◌, ◌∷◌,
}
use opatchy.Runner.{CommandName, CommandResult, CommandRunner}

pub data ArchFailure : Type 0 where
  command_exited command_missing command_output_exceeded command_rejected : ArchFailure
  command_timed_out duplicate_package invalid_vercmp_output malformed_row : ArchFailure
  missing_native_package unexpected_command_result : ArchFailure

pub record ArchDegraded : Type 0 where
  pub failure : ArchFailure
  pub detail : String

unfoldable pub command_degraded : CommandResult → String → ArchDegraded
command_degraded (CommandResult.exited r) command = record {
  failure = ArchFailure.command_exited;
  detail = command +++ ": exit " +++ decimal r.returncode;
}
command_degraded (CommandResult.missing diagnostic) command = record {
  failure = ArchFailure.command_missing;
  detail = diagnostic;
}
command_degraded (CommandResult.output_exceeded r) command = record {
  failure = ArchFailure.command_output_exceeded;
  detail = command +++ ": " +++ r.stream;
}
command_degraded (CommandResult.rejected diagnostic) command = record {
  failure = ArchFailure.command_rejected;
  detail = diagnostic;
}
command_degraded (CommandResult.timed_out r) command = record {
  failure = ArchFailure.command_timed_out;
  detail = command;
}
command_degraded (CommandResult.succeeded r) command = record {
  failure = ArchFailure.unexpected_command_result;
  detail = command;
}

abbrev invalid_vercmp : String → ArchDegraded
invalid_vercmp detail = record { failure = ArchFailure.invalid_vercmp_output; detail = detail }

-- The sign of a `VersionComparison`; the source builds -1, 0 and 1 only.
pub data VersionSign : Type 0 where
  older same newer : VersionSign

read_sign : Option String → Result ArchDegraded VersionSign
read_sign none = err (invalid_vercmp "non-UTF-8 output")
read_sign (some text) =
    let output = strip text in
    if output == "-1"
    then ok VersionSign.older
    else if output == "0"
    then ok VersionSign.same
    else if output == "1"
    then ok VersionSign.newer
    else err (invalid_vercmp output)

read_comparison : CommandResult → Result ArchDegraded VersionSign
unfolding read_sign
read_comparison (CommandResult.succeeded r) = read_sign (decode_utf8 r.stdout)
read_comparison result = err (command_degraded result "vercmp")

-- `compare_versions`; `err` is an `ArchDegraded`
unfoldable pub compare_versions : CommandRunner → String → String → Result ArchDegraded VersionSign
unfolding read_comparison
compare_versions run left right = read_comparison (run CommandName.vercmp (left ∷ right ∷ []))
