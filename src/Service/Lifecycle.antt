-- ===== src/Service/Lifecycle.antt =====
-- The hooks of a `Service` of src/service.h are called in the order of its states.
use fugu_mppt_firmware.Prelude.{
  ◌≡◌, ◌≢◌, refl, Bool, true, false, not, List, [], ◌∷◌, if_cases, ℕ, Bytes, some,
}
use fugu_mppt_firmware.ConfFile.{Writing}
use fugu_mppt_firmware.ConfFile.Numbers.{
  Got, got, empty_value, strto_error, additional_chars, not_found,
}
use fugu_mppt_firmware.Service.{
  ServiceState, stopped, running, failed, Level, Ran, gave, raised, HookCall, start_hook, stop_hook,
  tick_hook, Service, is_running, is_stopped, started, start, stop, restart, tick, set_log_level,
  set_enabled_persist, load_conf, loaded,
}

-- The state that the latest call leaves.
abbrev pub state_after : List HookCall → ServiceState
state_after [] = stopped
state_after (start_hook (gave true) ∷ hs) = running
state_after (start_hook (gave false) ∷ hs) = failed
state_after (start_hook raised ∷ hs) = failed
state_after (stop_hook throws ∷ hs) = stopped
state_after (tick_hook false ∷ hs) = running
state_after (tick_hook true ∷ hs) = failed

-- `onStart` is not called on a running service, `onStop` not on a stopped one, and `onTick` only on a
-- running one.
abbrev pub IsLegal : HookCall → ServiceState → Type 0
IsLegal (start_hook r) st = st ≢ running
IsLegal (stop_hook throws) st = st ≢ stopped
IsLegal (tick_hook throws) st = st ≡ running

abbrev pub AllLegal : List HookCall → Type 0
AllLegal [] = Unit
AllLegal (h ∷ hs) = IsLegal h (state_after hs) × AllLegal hs

pub record IsTraced (s : Service) : Type 0 where
  pub state_known : s.state ≡ state_after s.calls
  pub legal : AllLegal s.calls

not_running : (st : ServiceState) → is_running st ≡ false → st ≢ running
not_running stopped h e = cc
not_running failed h e = cc
not_running running h e = cc

not_stopped : (st : ServiceState) → is_stopped st ≡ false → st ≢ stopped
not_stopped stopped h e = cc
not_stopped failed h e = cc
not_stopped running h e = cc

is_running_lem : (st : ServiceState) → not (is_running st) ≡ false → st ≡ running
is_running_lem stopped h = cc
is_running_lem failed h = cc
is_running_lem running h = refl

started-IsTraced :
    (r : Ran) (s : Service)
    → AllLegal (start_hook r ∷ s.calls)
    → IsTraced
        (started r (record s { applied = some s.log_level; calls = start_hook r ∷ s.calls })).0
started-IsTraced (gave true) s legal = record { state_known = refl; legal = legal }
started-IsTraced (gave false) s legal = record { state_known = refl; legal = legal }
started-IsTraced raised s legal = record { state_known = refl; legal = legal }

start-IsTraced : (r : Ran) (s : Service) → IsTraced s → IsTraced (start r s).0
unfolding start
start-IsTraced r s i =
    if_cases (λ (x : Service × Bool). IsTraced x.0) (is_running s.state) (λ _. i)
      (λ idle. started-IsTraced r s (rw i.state_known at (not_running s.state idle), i.legal))

stop-IsTraced : (throws : Bool) (s : Service) → IsTraced s → IsTraced (stop throws s)
unfolding stop
stop-IsTraced throws s i =
    if_cases IsTraced (is_stopped s.state) (λ _. i)
      (λ on. record {
        state_known = refl;
        legal = (rw i.state_known at (not_stopped s.state on), i.legal);
      })

tick-IsTraced : (throws : Bool) (s : Service) → IsTraced s → IsTraced (tick throws s)
unfolding tick
tick-IsTraced true s i =
    if_cases IsTraced (not (is_running s.state)) (λ _. i)
      (λ on. record {
        state_known = refl;
        legal = (rw i.state_known at (is_running_lem s.state on), i.legal);
      })
tick-IsTraced false s i =
    if_cases IsTraced (not (is_running s.state)) (λ _. i)
      (λ on. record {
        state_known = is_running_lem s.state on;
        legal = (rw i.state_known at (is_running_lem s.state on), i.legal);
      })

pub data Op : Type 0 where
  start_op : Ran → Op
  stop_op : Bool → Op
  restart_op : Bool → Ran → Op
  tick_op : Bool → Op
  level_op : Level → Bool → Writing → Op
  enabled_op : Bool → Writing → Op
  load_op : Op

abbrev pub run : Op → Service → Service
run (start_op r) s = (start r s).0
run (stop_op throws) s = stop throws s
run (restart_op throws r) s = (restart throws r s).0
run (tick_op throws) s = tick throws s
run (level_op lvl persist w) s = set_log_level lvl persist w s
run (enabled_op en w) s = set_enabled_persist en w s
run load_op s = load_conf s

abbrev pub runs : List Op → Service → Service
runs [] s = s
runs (o ∷ os) s = runs os (run o s)

-- Calls that leave the state and the trace alone.
quiet_IsTraced : (s t : Service) → t.state ≡ s.state → t.calls ≡ s.calls → IsTraced s → IsTraced t
quiet_IsTraced s t e c i = record { state_known = rw (e, c) i.state_known; legal = rw c i.legal }

quiet_level :
    (lvl : Level) (persist : Bool) (w : Writing) (s : Service)
    → ((set_log_level lvl persist w s).state ≡ s.state)
      × ((set_log_level lvl persist w s).calls ≡ s.calls)
unfolding set_log_level
quiet_level lvl true w s = (refl, refl)
quiet_level lvl false w s = (refl, refl)

quiet_loaded :
    (o : Got ℕ) (level : Got Bytes) (s : Service)
    → ((loaded o level s).state ≡ s.state) × ((loaded o level s).calls ≡ s.calls)
quiet_loaded (got n) (got level) s = (refl, refl)
quiet_loaded (got n) empty_value s = (refl, refl)
quiet_loaded (got n) strto_error s = (refl, refl)
quiet_loaded (got n) additional_chars s = (refl, refl)
quiet_loaded (got n) not_found s = (refl, refl)
quiet_loaded empty_value level s = (refl, refl)
quiet_loaded strto_error level s = (refl, refl)
quiet_loaded additional_chars level s = (refl, refl)
quiet_loaded not_found level s = (refl, refl)

quiet_load : (s : Service) → ((load_conf s).state ≡ s.state) × ((load_conf s).calls ≡ s.calls)
unfolding load_conf
quiet_load s = quiet_loaded _ _ s

run-IsTraced : (o : Op) (s : Service) → IsTraced s → IsTraced (run o s)
run-IsTraced (start_op r) s i = start-IsTraced r s i
run-IsTraced (stop_op throws) s i = stop-IsTraced throws s i
run-IsTraced (restart_op throws r) s i =
    unfold restart in start-IsTraced r (stop throws s) (stop-IsTraced throws s i)
run-IsTraced (tick_op throws) s i = tick-IsTraced throws s i
run-IsTraced (level_op lvl persist w) s i =
    let (e, c) = quiet_level lvl persist w s in
    quiet_IsTraced s (set_log_level lvl persist w s) e c i
run-IsTraced (enabled_op en w) s i =
    unfold set_enabled_persist in record { state_known = i.state_known; legal = i.legal }
run-IsTraced load_op s i = let (e, c) = quiet_load s in quiet_IsTraced s (load_conf s) e c i

-- Whatever is called on a service in whatever order, and whatever its hooks do: `onStart` was never
-- called on a running service, `onStop` never on a stopped one and `onTick` only on a running one, and
-- the state is the one that the latest call of a hook leaves.
pub runs-IsTraced : (os : List Op) (s : Service) → IsTraced s → IsTraced (runs os s)
runs-IsTraced [] s i = i
runs-IsTraced (o ∷ os) s i = runs-IsTraced os (run o s) (run-IsTraced o s i)
