-- ===== src/Service/Managed.antt =====
-- `ServiceManager` of src/service.h: what its loops over all services come to.
use fugu_mppt_firmware.Prelude.{
  ◌≡◌, refl, Bool, true, false, not, ◌&&◌, ◌||◌, if◌then◌else◌, if_cases, List, [], ◌∷◌, map, All,
  arith, some,
}
use fugu_mppt_firmware.Service.{
  ServiceState, stopped, running, failed, start_hook, Ran, gave, raised, Service, Hooks, is_running,
  is_stopped, start, stop, started, start_it, stop_it, start_enabled_at_boot,
  start_enabled_network_services, stop_network_services, stop_all,
}

start-running : (r : Ran) (s : Service) → is_running s.state ≡ true → (start r s).0 ≡ s
unfolding start
start-running r s h = rw h refl

abbrev pub boot_step : Hooks → Bool → Service → Service
boot_step hooks up s = if s.enabled && (up || not s.requires_network) then start_it hooks s else s

abbrev pub network_step : Hooks → Service → Service
network_step hooks s =
    if s.requires_network && s.enabled && not (is_running s.state) then start_it hooks s else s

started-enabled :
    (r : Ran) (s : Service)
    → ((started r s).0.enabled ≡ s.enabled)
      × ((started r s).0.requires_network ≡ s.requires_network)
started-enabled (gave true) s = (refl, refl)
started-enabled (gave false) s = (refl, refl)
started-enabled raised s = (refl, refl)

start-enabled :
    (r : Ran) (s : Service)
    → ((start r s).0.enabled ≡ s.enabled) × ((start r s).0.requires_network ≡ s.requires_network)
unfolding start
start-enabled r s =
    if_cases
      (λ (x : Service × Bool).
        (x.0.enabled ≡ s.enabled) × (x.0.requires_network ≡ s.requires_network))
      (is_running s.state) (λ _. (refl, refl)) (λ _. started-enabled r _)

late_step :
    (hooks : Hooks) (s : Service)
    → network_step hooks (boot_step hooks false s) ≡ boot_step hooks true s
late_step hooks s =
    let e = start-enabled (hooks.on_start s) s in
    ground (arith, start-running (hooks.on_start s) s, e.0, e.1)

-- A boot without a network, and the start of the network services once it is there, come to the same
-- as a boot with a network, for all services and whatever their hooks do.
pub boot-late_network :
    (hooks : Hooks) (ss : List Service)
    → start_enabled_network_services hooks (start_enabled_at_boot hooks false ss)
      ≡ start_enabled_at_boot hooks true ss
unfolding start_enabled_network_services start_enabled_at_boot
boot-late_network hooks [] = refl
boot-late_network hooks (s ∷ ss) = rw (late_step hooks s, boot-late_network hooks ss) refl

-- The service after its stop.
abbrev pub stopped_of : Hooks → Service → Service
stopped_of hooks s = if is_stopped s.state then s else stop_it hooks s

-- What is left of a service after the network has gone and come back.
abbrev pub after_cycle : Hooks → Service → Service
after_cycle hooks s =
    if not s.requires_network
    then s
    else if s.enabled
    then (started (hooks.on_start (stopped_of hooks s)) (record (stopped_of hooks s) {
      applied = some s.log_level;
      calls = start_hook (hooks.on_start (stopped_of hooks s)) ∷ (stopped_of hooks s).calls;
    })).0
    else stopped_of hooks s

abbrev pub down_step : Hooks → Service → Service
down_step hooks s = if s.requires_network && not (is_stopped s.state) then stop_it hooks s else s

is_stopped_lem : (st : ServiceState) → is_stopped st ≡ true → is_running st ≡ false
is_stopped_lem stopped h = refl
is_stopped_lem running h = cc
is_stopped_lem failed h = cc

cycle_step :
    (hooks : Hooks) (s : Service) → network_step hooks (down_step hooks s) ≡ after_cycle hooks s
unfolding stop start
cycle_step hooks s = ground (arith, is_stopped_lem s.state)

-- When the network goes and comes back, a service that does not require it stays as it is; one that
-- does is stopped if it was not, and then started by a call of its `onStart` if it is enabled, whether
-- it was running, stopped or failed before.
pub network_cycle :
    (hooks : Hooks) (ss : List Service)
    → start_enabled_network_services hooks (stop_network_services hooks ss)
      ≡ map (after_cycle hooks) ss
unfolding start_enabled_network_services stop_network_services
network_cycle hooks [] = refl
network_cycle hooks (s ∷ ss) = rw (cycle_step hooks s, network_cycle hooks ss) refl

stopped_lem : (st : ServiceState) → is_stopped st ≡ true → st ≡ stopped
stopped_lem stopped h = refl
stopped_lem running h = cc
stopped_lem failed h = cc

stop-IsStopped :
    (hooks : Hooks) (s : Service)
    → (if not (is_stopped s.state) then stop_it hooks s else s).state ≡ stopped
unfolding stop
stop-IsStopped hooks s = ground (arith, stopped_lem s.state)

-- After `stopAll` every service is stopped, whatever the hooks do.
stop_all-IsStopped :
    (hooks : Hooks) (ss : List Service) → All (λ s. s.state ≡ stopped) (stop_all hooks ss)
unfolding stop_all
stop_all-IsStopped hooks [] = _
stop_all-IsStopped hooks (s ∷ ss) = (stop-IsStopped hooks s, stop_all-IsStopped hooks ss)
