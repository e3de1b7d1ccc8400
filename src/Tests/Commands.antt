-- ===== src/Tests/Commands.antt =====
-- The command line on concrete arguments: an inventory, and a click on a permanent star of `arch:vim`.
use opatchy.Base.{
  Bool, List, String, [], count, drop, false, length, none, ok, refl, some, take, true, ℕ, ℤ, ◌&&◌,
  ◌∷◌, ◌≡◌,
}
use opatchy.Cli.Arguments.{parse_command}
use opatchy.Cli.Operations.{inventory_items, matches_query, shown_inventory}
use opatchy.Cli.Pages.{IsOrdered, shown_inventory-pages}
use opatchy.Cli.Parsed.{IsBounded, parse_command-IsBounded}
use opatchy.Cli.Reported.{set_star-mode}
use opatchy.Cli.Requests.{CliCommand, InventoryCommand, SetStarCommand}
use opatchy.Cli.Stars.{set_star, star_response}
use opatchy.Files.Disk.{Disk, Environment}
use opatchy.Models.{
  InventoryResponse, ItemSource, NormalizedItem, PersistentState, Provenance, StarResultResponse,
  WatchMode, WatchRecord, empty_state, watch_beq,
}
use opatchy.Stars.{click_existing_watch, star_click, without_active_references}
use opatchy.Storage.Documents.States.{state_value}
use opatchy.Storage.Watches.{validate_watch}
use opatchy.Wire.Json.{normalize_below}
use opatchy.Wire.Timestamps.{Calendar}

abbrev inventory_arguments : List String
inventory_arguments =
    "inventory" ∷ "--source" ∷ "arch" ∷ "--query" ∷ "vim" ∷ "--limit" ∷ "25" ∷ "--offset" ∷ "50"
    ∷ []

abbrev arch_page : InventoryCommand
arch_page = record { source = ItemSource.arch; query = "vim"; limit = 25; offset = 50 }

parse_command-IsBounded_example : IsBounded (CliCommand.inventory_command arch_page)
unfolding parse_command
parse_command-IsBounded_example =
    parse_command-IsBounded inventory_arguments (CliCommand.inventory_command arch_page) refl

abbrev pub vim : WatchRecord
vim = record {
  item_id = "arch:vim";
  mode = WatchMode.permanent;
  installed_fingerprint = none;
  candidate_fingerprint = none;
  armed = false;
  condition = none;
}

abbrev starred : PersistentState
starred = record { watches = vim ∷ []; ledger = []; sources = [] }

abbrev calendar : Calendar
calendar = record { isoformat = λ moment. ""; fromisoformat = λ raw. none }

-- a library that reads the state above, and writes one text
abbrev env : Environment
env = record {
  json = record {
    dumps = λ value. "{}";
    loads = λ on_object on_constant text. some (ok (state_value calendar starred));
    encode = λ text. some (b'{' ∷ b'}' ∷ []);
  };
  base64 = record { b64encode = λ raw. ""; b64decode = λ text. none };
  calendar = calendar;
  clock = λ n. n;
}

abbrev pub saved_disk : Disk
saved_disk = record {
  state_file = some (b'{' ∷ b'}' ∷ b'\n' ∷ []);
  generation_file = none;
  snapshot_file = none;
  inventory_file = λ source. none;
  quarantined = [];
  readings = 0;
}

abbrev unstar : SetStarCommand
unstar = record { item_id = "arch:vim"; mode = WatchMode.off; condition = none }

abbrev unstarred : StarResultResponse
unstarred = star_response unstar empty_state 7 "star-1"

set_star-mode_example :
    (unstarred.payload.item_id ≡ "arch:vim") × (unstarred.payload.mode ≡ WatchMode.off)
unfolding set_star normalize_below validate_watch star_click click_existing_watch watch_beq
    without_active_references
set_star-mode_example = set_star-mode (λ text. text) env unstar 7 "star-1" saved_disk unstarred refl

abbrev item : String → String → NormalizedItem
item item_id label = record {
  item_id = item_id;
  source = ItemSource.arch;
  label = label;
  installed = some "1";
  candidate = none;
  watch_mode = WatchMode.off;
  watchable = true;
  provenance = Provenance.live;
  installed_fingerprint = some "f1";
  candidate_fingerprint = none;
  watch_armed = false;
}

abbrev stored : InventoryResponse
stored = record {
  generated_at = 5;
  generation_id = "scan-1";
  payload = record {
    source = ItemSource.arch;
    total = ℤ.pos 2;
    items = item "arch:b" "b" ∷ item "arch:a" "a" ∷ [];
  };
  protocol_version = ℤ.pos 1;
}

-- the watched item stands first, then the others by their labels
shown_inventory-pages_example :
    (ordered : List NormalizedItem) × IsOrdered (λ text. text) ordered
    × ((p : NormalizedItem → Bool)
        → count p ordered
          ≡ count
              (λ item. matches_query (λ text. text) item "" && p item)
              (inventory_items stored (vim ∷ []) ItemSource.arch))
    × ((limit offset : ℕ)
        → let shown =
            shown_inventory
              (λ text. text)
              stored
              (vim ∷ [])
              (record { source = ItemSource.arch; query = ""; limit = limit; offset = offset }) in
          (shown.payload.items ≡ take limit (drop offset ordered))
          × (shown.payload.total ≡ ℤ.pos (length ordered)))
shown_inventory-pages_example =
    shown_inventory-pages (λ text. text) stored (vim ∷ []) ItemSource.arch ""
