-- ===== src/Service.antt =====
-- `class Service` and `class ServiceManager` of src/service.h. What the hooks of a concrete service do
-- is an argument; no class overrides `liveState`. The file at `_confPath` is part of the state.
pub mod Lifecycle
pub mod Managed
pub mod Persistence
pub mod Tests
use fugu_mppt_firmware.Prelude.{
  ℕ, zero, suc, Bool, true, false, not, ◌&&◌, ◌||◌, ◌==◌, leb, ◌+◌, if◌then◌else◌, Option, none,
  some, List, [], ◌∷◌, ◌++◌, map, Bytes, codes, bytes_eq,
}
use fugu_mppt_firmware.ConfFile.{ConfFile, Writing, load, add}
use fugu_mppt_firmware.ConfFile.Numbers.{
  Got, got, empty_value, strto_error, additional_chars, not_found, get_byte, get_string,
}

pub data ServiceState : Type 0 where
  stopped running failed : ServiceState

-- `esp_log_level_t`
pub data Level : Type 0 where
  log_none log_error log_warn log_info log_debug log_verbose : Level

abbrev pub level_to_str : Level → Bytes
level_to_str log_error = codes "error"
level_to_str log_warn = codes "warn"
level_to_str log_info = codes "info"
level_to_str log_none = codes "info"
level_to_str log_debug = codes "info"
level_to_str log_verbose = codes "info"

abbrev pub is_any_of : List Bytes → Bytes → Bool
is_any_of [] s = false
is_any_of (w ∷ ws) s = bytes_eq s w || is_any_of ws s

unfoldable pub str_to_level : Bytes → Level
str_to_level s =
    if is_any_of (codes "error" ∷ codes "err" ∷ codes "e" ∷ []) s
    then log_error
    else if is_any_of (codes "warn" ∷ codes "warning" ∷ codes "w" ∷ []) s
    then log_warn
    else log_info

abbrev pub state_str : ServiceState → Bytes
state_str running = codes "Running"
state_str stopped = codes "Stopped"
state_str failed = codes "Failed"

-- What `onStart` does: it returns, or it throws.
pub data Ran : Type 0 where
  gave : Bool → Ran
  raised : Ran

-- A hook that was called, and what it did; of `onStop` and `onTick`, whether they threw.
pub data HookCall : Type 0 where
  start_hook : Ran → HookCall
  stop_hook : Bool → HookCall
  tick_hook : Bool → HookCall

pub record Service : Type 0 where
  pub name : Bytes
  pub conf_file : Option Bytes
  pub requires_network : Bool
  pub state : ServiceState
  pub log_level : Level
  pub enabled : Bool
  -- the level that `esp_log_level_set` was last given for the name
  pub applied : Option Level
  -- the latest first
  pub calls : List HookCall

abbrev pub is_running : ServiceState → Bool
is_running running = true
is_running stopped = false
is_running failed = false

abbrev pub is_stopped : ServiceState → Bool
is_stopped stopped = true
is_stopped running = false
is_stopped failed = false

abbrev pub fail : Service → Service
fail s = record s { state = failed }

abbrev pub started : Ran → Service → Service × Bool
started (gave true) s = (record s { state = running }, true)
started (gave false) s = (fail s, false)
started raised s = (fail s, false)

unfoldable pub start : Ran → Service → Service × Bool
start r s =
    if is_running s.state
    then (s, true)
    else started r (record s { applied = some s.log_level; calls = start_hook r ∷ s.calls })

unfoldable pub stop : (throws : Bool) → Service → Service
stop throws s =
    if is_stopped s.state
    then s
    else record s { state = stopped; calls = stop_hook throws ∷ s.calls }

unfoldable pub restart : (throws : Bool) → Ran → Service → Service × Bool
restart throws r s = start r (stop throws s)

unfoldable pub tick : (throws : Bool) → Service → Service
tick throws s =
    if not (is_running s.state)
    then s
    else (let s' = record s { calls = tick_hook throws ∷ s.calls } in
        if throws then fail s' else s')

unfoldable pub set_log_level : Level → (persist : Bool) → Writing → Service → Service
set_log_level lvl persist w s =
    let s' = record s { log_level = lvl; applied = some lvl } in
    if persist
    then (let r =
          add ((codes "log_level", level_to_str lvl) ∷ []) true w (load s.conf_file) s.conf_file in
        record s' { conf_file = r.file })
    else s'

unfoldable pub set_enabled_persist : Bool → Writing → Service → Service
set_enabled_persist en w s =
    let r =
      add ((codes "enabled", if en then codes "1" else codes "0") ∷ []) true w (load s.conf_file)
        s.conf_file in
    record s { enabled = en; conf_file = r.file }

-- The assignments of `loadConf`'s try block; an exception leaves both as they are.
abbrev pub loaded : Got ℕ → Got Bytes → Service → Service
loaded (got n) (got level) s = record s { enabled = not (n == 0); log_level = str_to_level level }
loaded (got n) o s = record s { enabled = not (n == 0) }
loaded o level s = s

unfoldable pub load_conf : Service → Service
load_conf s =
    let c = load s.conf_file in
    let en = get_byte (codes "enabled") (some (if s.enabled then 1 else 0)) c in
    let level = get_string (codes "log_level") (some (codes "info")) en.0 in
    let s' = loaded en.1 level.1 s in record s' { applied = some s'.log_level }

-- What the hooks of each service do.
pub record Hooks : Type 0 where
  pub on_start : Service → Ran
  pub on_stop : Service → Bool
  pub on_tick : Service → Bool

abbrev pub register_service : Service → List Service → List Service
register_service s ss = ss ++ load_conf s ∷ []

-- `strcasecmp`, for letters of ASCII.
abbrev pub lower : ℕ → ℕ
lower c = if leb 65 c && leb c 90 then c + 32 else c

abbrev pub same_name : Bytes → Bytes → Bool
same_name a b = bytes_eq (map lower a) (map lower b)

unfoldable pub find_by_name : Bytes → List Service → Option Service
find_by_name n [] = none
find_by_name n (s ∷ ss) =
    let rest = find_by_name n ss in if same_name s.name n then some s else rest

module _ (hooks : Hooks) where
  abbrev pub start_it : Service → Service
  start_it s = (start (hooks.on_start s) s).0

  abbrev pub stop_it : Service → Service
  stop_it s = stop (hooks.on_stop s) s

  unfoldable pub start_enabled_at_boot : (network_up : Bool) → List Service → List Service
  start_enabled_at_boot network_up ss =
      map (λ s. if s.enabled && (network_up || not s.requires_network) then start_it s else s) ss

  unfoldable pub start_enabled_network_services : List Service → List Service
  start_enabled_network_services ss =
      map
        (λ s. if s.requires_network && s.enabled && not (is_running s.state) then start_it s else s)
        ss

  unfoldable pub stop_network_services : List Service → List Service
  stop_network_services ss =
      map (λ s. if s.requires_network && not (is_stopped s.state) then stop_it s else s) ss

  unfoldable pub tick_all : List Service → List Service
  tick_all ss = map (λ s. tick (hooks.on_tick s) s) ss

  unfoldable pub stop_all : List Service → List Service
  stop_all ss = map (λ s. if not (is_stopped s.state) then stop_it s else s) ss
