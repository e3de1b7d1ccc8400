-- ===== src/Runner.antt =====
-- helper/opatchy_helper/runner_types.py: the closed set of commands and what running one may give.
use opatchy.Base.{
  Bool, List, String, all, has_nul, leb, length, nat_eq, not, text_length, ℕ, ℤ, ◌&&◌, ◌==◌,
}

pub data CommandName : Type 0 where
  omarchy_update_available pacman_native checkupdates vercmp pacman_foreign yay_updates paru_updates
        flatpak_user_app_list flatpak_user_runtime_list flatpak_system_app_list
        flatpak_system_runtime_list flatpak_user_updates flatpak_system_updates mise_outdated
        arch_audit notify :
      CommandName

abbrev pub command_name_value : CommandName → String
command_name_value CommandName.omarchy_update_available = "omarchy-update-available"
command_name_value CommandName.pacman_native = "pacman-native"
command_name_value CommandName.checkupdates = "checkupdates"
command_name_value CommandName.vercmp = "vercmp"
command_name_value CommandName.pacman_foreign = "pacman-foreign"
command_name_value CommandName.yay_updates = "yay-updates"
command_name_value CommandName.paru_updates = "paru-updates"
command_name_value CommandName.flatpak_user_app_list = "flatpak-user-app-list"
command_name_value CommandName.flatpak_user_runtime_list = "flatpak-user-runtime-list"
command_name_value CommandName.flatpak_system_app_list = "flatpak-system-app-list"
command_name_value CommandName.flatpak_system_runtime_list = "flatpak-system-runtime-list"
command_name_value CommandName.flatpak_user_updates = "flatpak-user-updates"
command_name_value CommandName.flatpak_system_updates = "flatpak-system-updates"
command_name_value CommandName.mise_outdated = "mise-outdated"
command_name_value CommandName.arch_audit = "arch-audit"
command_name_value CommandName.notify = "notify"

pub data ArgumentPolicy : Type 0 where
  no_arguments version_pair notification_text : ArgumentPolicy

abbrev pub argument_policy_value : ArgumentPolicy → String
argument_policy_value ArgumentPolicy.no_arguments = "none"
argument_policy_value ArgumentPolicy.version_pair = "version-pair"
argument_policy_value ArgumentPolicy.notification_text = "notification-text"

-- `Bytes` is a list of numbers below 256.
abbrev pub Bytes : Type 0
Bytes = List ℕ

pub record CommandSucceeded : Type 0 where
  pub stdout : Bytes
  pub stderr : Bytes

pub record CommandExited : Type 0 where
  pub returncode : ℤ
  pub stdout : Bytes
  pub stderr : Bytes

pub record CommandTimedOut : Type 0 where
  pub stdout : Bytes
  pub stderr : Bytes

pub record CommandOutputExceeded : Type 0 where
  pub stream : String
  pub stdout : Bytes
  pub stderr : Bytes

pub data CommandResult : Type 0 where
  succeeded : CommandSucceeded → CommandResult
  exited : CommandExited → CommandResult
  timed_out : CommandTimedOut → CommandResult
  output_exceeded : CommandOutputExceeded → CommandResult
  missing rejected : String → CommandResult

abbrev pub CommandRunner : Type 0
CommandRunner = CommandName → List String → CommandResult

-- the test of one argument: no NUL and at most 4096 characters
abbrev pub argument_fits : String → Bool
argument_fits argument = not (has_nul argument) && leb (text_length argument) 4096

unfoldable pub arguments_allowed : ArgumentPolicy → List String → Bool
arguments_allowed ArgumentPolicy.no_arguments arguments = length arguments == 0
arguments_allowed ArgumentPolicy.version_pair arguments =
    length arguments == 2 && all argument_fits arguments
arguments_allowed ArgumentPolicy.notification_text arguments =
    length arguments == 2 && all argument_fits arguments
