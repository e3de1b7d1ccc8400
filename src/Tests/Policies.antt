-- ===== src/Tests/Policies.antt =====
-- A fresh update of the permanently watched `arch:vim`.
use opatchy.Base.{In, [], false, here, none, refl, some, true, ℤ, ◌∷◌}
use opatchy.Models.{
  ItemSource, NormalizedItem, PersistentState, Provenance, ScanState, Severity, SnapshotResponse,
  SourceHealth, SourceName, SourceStatus, WatchMode,
}
use opatchy.Notifications.Conditional.{conditional_security_candidates}
use opatchy.Notifications.Freshness.{
  classify, current_provenance, fresh_source, fresh_status, live, policy_text, source_name,
}
use opatchy.Notifications.Policy.{
  fresh_item, insert_candidate, item_candidate, notification_candidates, security_candidates,
  sort_candidates, watch_candidates,
}
use opatchy.Notifications.Policy.Complete.{notification_candidates_complete}
use opatchy.Notifications.Policy.Sound.{Justified, by_watch, notification_candidates_sound}
use opatchy.Notifications.Types.{
  NotificationCandidate, NotificationChange, NotificationKind, NotificationSettings,
}
use opatchy.Runner.{CommandResult, CommandRunner}
use opatchy.Stars.{permanent_watch, watch_notification_reference}

abbrev pub vim_update : NormalizedItem
vim_update = record {
  item_id = "arch:vim";
  source = ItemSource.arch;
  label = "vim";
  installed = some "1";
  candidate = some "2";
  watch_mode = WatchMode.permanent;
  watchable = true;
  provenance = Provenance.live;
  installed_fingerprint = some "a";
  candidate_fingerprint = some "b";
  watch_armed = false;
}

abbrev pub arch_health : SourceHealth
arch_health = record {
  source = SourceName.arch;
  status = SourceStatus.ok;
  provenance = Provenance.live;
  observed_at = 10;
  fresh_until = 20;
  cause = none;
  scopes = [];
}

abbrev pub vim_snapshot : SnapshotResponse
vim_snapshot = record {
  generated_at = 10;
  generation_id = "g1";
  payload = record {
    scan_state = ScanState.partial;
    sources = arch_health ∷ [];
    summary = record {
      total_updates = ℤ.pos 1;
      watched_updates = ℤ.pos 1;
      security_findings = ℤ.pos 0;
      degraded_sources = ℤ.pos 0;
    };
    items = vim_update ∷ [];
    findings = [];
    notifications = [];
  };
  protocol_version = ℤ.pos 1;
}

abbrev permanent_state : PersistentState
permanent_state = record { watches = permanent_watch "arch:vim" ∷ []; ledger = []; sources = [] }

abbrev pub all_notified : NotificationSettings
all_notified = record {
  notify_permanent = true;
  notify_security = true;
  security_minimum_severity = Severity.high;
}

abbrev pub no_command : CommandRunner
no_command name arguments = CommandResult.missing "no command"

abbrev vim_notification : NotificationCandidate
vim_notification = record {
  fingerprint = "watch-v1:arch:vim:a:b";
  reference = "watch-v1:arch:vim:";
  kind = NotificationKind.watch;
  change = NotificationChange.first;
  title = "Watched update available";
  body = "Watched item vim has update 2 available.";
}

vim_is_notified :
    In vim_notification (
      notification_candidates
        (λ text. text)
        no_command
        all_notified
        permanent_state
        vim_snapshot
        15)
unfolding notification_candidates watch_candidates item_candidate fresh_item fresh_source
    current_provenance fresh_status source_name classify policy_text sort_candidates
    insert_candidate security_candidates conditional_security_candidates
    watch_notification_reference live
vim_is_notified = here

notification_candidates_sound_example :
    Justified
      (λ text. text)
      no_command
      all_notified
      permanent_state
      vim_snapshot
      15
      vim_notification
notification_candidates_sound_example =
    notification_candidates_sound (λ text. text) no_command all_notified permanent_state
      vim_snapshot 15 vim_notification vim_is_notified

vim_notification-Justified :
    Justified
      (λ text. text)
      no_command
      all_notified
      permanent_state
      vim_snapshot
      15
      vim_notification
unfolding fresh_item item_candidate current_provenance fresh_source fresh_status source_name
    classify policy_text watch_notification_reference live
vim_notification-Justified = by_watch vim_update here refl refl refl refl

notification_candidates_complete_example :
    In vim_notification (
      notification_candidates
        (λ text. text)
        no_command
        all_notified
        permanent_state
        vim_snapshot
        15)
notification_candidates_complete_example =
    notification_candidates_complete (λ text. text) no_command all_notified permanent_state
      vim_snapshot 15 vim_notification vim_notification-Justified
