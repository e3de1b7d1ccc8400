-- ===== src/Notifications/Freshness.antt =====
-- The tests that notification_policy.py and conditional_security_policy.py share in wording: which
-- evidence is fresh, which severity is notified, and how a candidate is classified.
use Prim.Native.Char.{code}
use opatchy.Base.{
  Bool, List, Option, String, any, false, find, if◌then◌else◌, is_some, join, leb, nat_eq, none,
  not, some, starts_with, text_take, true, ℕ, ◌&&◌, ◌+++◌, ◌==◌,
}
use opatchy.Models.{
  ArchStatus, Datetime, ItemSource, LedgerEntry, Provenance, Severity, SnapshotResponse,
  SourceHealth, SourceName, SourceStatus, severity_eq, source_name_eq,
}
use opatchy.Notifications.Batch.{find_entry}
use opatchy.Notifications.Types.{NotificationChange}
use opatchy.Stars.{fingerprint}

-- `_fresh_status`
unfoldable pub fresh_status : SourceHealth → Datetime → Bool
fresh_status health now = elim health.status [
  | SourceStatus.ok ↦ leb health.observed_at now && leb now health.fresh_until
  | _ ↦ false
]

-- `_current_provenance` of the ordinary policy
unfoldable pub current_provenance : Provenance → Bool
current_provenance Provenance.last_good = false
current_provenance _ = true

-- `_live` of the conditional policy
unfoldable pub live : Provenance → Bool
live Provenance.live = true
live _ = false

abbrev pub find_health : SourceName → List SourceHealth → Option SourceHealth
find_health source sources = find (λ health. health.source == source) sources

health_is_fresh : (Provenance → Bool) → Datetime → Option SourceHealth → Bool
unfolding fresh_status
health_is_fresh trusted now none = false
health_is_fresh trusted now (some health) = trusted health.provenance && fresh_status health now

-- `_fresh_source`, over the provenances that the policy trusts
unfoldable pub fresh_source : (Provenance → Bool) → SnapshotResponse → SourceName → Datetime → Bool
unfolding health_is_fresh
fresh_source trusted snapshot source now =
    health_is_fresh trusted now (find_health source snapshot.payload.sources)

unfoldable pub source_name : ItemSource → SourceName
source_name ItemSource.omarchy = SourceName.omarchy
source_name ItemSource.arch = SourceName.arch
source_name ItemSource.aur = SourceName.aur
source_name ItemSource.flatpak = SourceName.flatpak
source_name ItemSource.mise = SourceName.mise

-- `_notifiable_severity`, and `_notifiable` of the conditional policy
unfoldable pub notifiable_severity : Severity → Severity → Bool
notifiable_severity Severity.critical minimum = true
notifiable_severity Severity.high minimum = not (minimum == Severity.critical)
notifiable_severity _ minimum = false

unfoldable pub is_fixed : ArchStatus → Bool
is_fixed ArchStatus.fixed = true
is_fixed _ = false

-- `_change`
unfoldable pub classify : List LedgerEntry → String → String → NotificationChange
classify ledger fingerprint reference =
    if is_some (find_entry fingerprint ledger)
    then NotificationChange.unchanged
    else if any (λ entry. starts_with entry.fingerprint reference) ledger
    then NotificationChange.new
    else NotificationChange.first

-- `html.escape(text, quote=True)` and `html.escape(text, quote=False)`, a character at a time
unfoldable pub escape : Bool → String → String
escape quote String.[] = ""
escape quote (String.◌∷◌ c s) =
    let rest = escape quote s in
    if code c == b'&'
    then "&amp;" +++ rest
    else if code c == b'<'
    then "&lt;" +++ rest
    else if code c == b'>'
    then "&gt;" +++ rest
    else if quote && code c == b'"'
    then "&quot;" +++ rest
    else if quote && code c == 39
    then "&#x27;" +++ rest
    else String.◌∷◌ c rest

-- `value.replace("\0", "?")`
without_nul : String → String
without_nul String.[] = ""
without_nul (String.◌∷◌ c s) =
    let rest = without_nul s in if code c == 0 then "?" +++ rest else String.◌∷◌ c rest

abbrev pub max_text : ℕ
max_text = 256

-- `_text` of the ordinary policy
unfoldable pub policy_text : String → String
unfolding escape without_nul
policy_text value = escape true (text_take max_text (without_nul value))

-- `_text` of the conditional policy
unfoldable pub condition_text : String → String
unfolding escape
condition_text value = text_take max_text (escape false value)

-- `_digest`
abbrev pub digest : (String → String) → List String → String
digest sha256 parts = sha256 (join "\0" parts)
