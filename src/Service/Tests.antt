-- ===== src/Service/Tests.antt =====
-- The services of src/service.h at concrete ones.
use mathlib.Core.Option.{some-injective}
use fugu_mppt_firmware.Prelude.{
  ◌≡◌, refl, sym, ◌∙◌, subst, true, false, none, some, [], ◌∷◌, ◌++◌, map, All, arith, Bytes, codes,
}
use fugu_mppt_firmware.Prelude.Texts.{bytes_eq}
use fugu_mppt_firmware.ConfFile.{
  find, contains, update_found, update_line, update_lines, append_new, rewritten, read_lines,
  complete, add, write_file, file_text,
}
use fugu_mppt_firmware.ConfFile.Text.{
  is_white, trim_front, trim_back, trim, before, behind, split_at, gets, strip_newline,
}
use fugu_mppt_firmware.ConfFile.Lines.{IsLine}
use fugu_mppt_firmware.Service.{
  stopped, failed, log_warn, log_info, gave, raised, Service, Hooks, set_log_level,
  set_enabled_persist, load_conf, start_enabled_at_boot, start_enabled_network_services,
  stop_network_services,
}
use fugu_mppt_firmware.Service.Lifecycle.{
  IsTraced, start_op, stop_op, tick_op, restart_op, runs, runs-IsTraced,
}
use fugu_mppt_firmware.Service.Managed.{after_cycle, boot-late_network, network_cycle}
use fugu_mppt_firmware.Service.Persistence.{
  enabled_key, level_key, added, StaysWhole, load_conf-set,
}

abbrev mqtt : Service
mqtt = record {
  name = codes "mqtt";
  conf_file = none;
  requires_network = true;
  state = stopped;
  log_level = log_info;
  enabled = true;
  applied = none;
  calls = [];
}

abbrev lcd : Service
lcd = record mqtt { name = codes "lcd"; requires_network = false; enabled = false }

abbrev hooks : Hooks
hooks = record { on_start = λ s. gave true; on_stop = λ s. false; on_tick = λ s. false }

runs-IsTraced_example :
    IsTraced (
      runs
        (start_op (gave true) ∷ tick_op true ∷ restart_op false raised ∷ stop_op false ∷ [])
        mqtt)
runs-IsTraced_example =
    runs-IsTraced
      (start_op (gave true) ∷ tick_op true ∷ restart_op false raised ∷ stop_op false ∷ []) mqtt
      (record { state_known = refl; legal = _ })

boot-late_network_example :
    start_enabled_network_services hooks (start_enabled_at_boot hooks false (mqtt ∷ lcd ∷ []))
    ≡ start_enabled_at_boot hooks true (mqtt ∷ lcd ∷ [])
boot-late_network_example = boot-late_network hooks (mqtt ∷ lcd ∷ [])

network_cycle_example :
    start_enabled_network_services hooks
      (stop_network_services hooks (record mqtt { state = failed } ∷ lcd ∷ []))
    ≡ map (after_cycle hooks) (record mqtt { state = failed } ∷ lcd ∷ [])
network_cycle_example = network_cycle hooks (record mqtt { state = failed } ∷ lcd ∷ [])

enabled_lines :
    rewritten ((enabled_key, codes "0") ∷ []) true (read_lines none) ≡ some (codes "enabled=0" ∷ [])
unfolding find contains update_found update_line update_lines append_new rewritten read_lines gets
    before behind split_at trim trim_front trim_back is_white strip_newline bytes_eq
enabled_lines = refl

enabled_whole : All IsLine (codes "enabled=0" ∷ [])
enabled_whole = omega arith

abbrev enabled_text : Bytes
enabled_text = codes "enabled=0" ++ 10 ∷ []

enabled_file : added enabled_key (codes "0") none ≡ some enabled_text
unfolding add write_file file_text find contains update_found update_line update_lines append_new
    rewritten read_lines gets before behind split_at trim trim_front trim_back is_white
    strip_newline bytes_eq
enabled_file = refl

level_lines :
    rewritten ((level_key, codes "warn") ∷ []) true (read_lines (some enabled_text))
    ≡ some (codes "enabled=0" ∷ codes "log_level=warn" ∷ [])
unfolding find contains update_found update_line update_lines append_new rewritten read_lines gets
    before behind split_at trim trim_front trim_back is_white strip_newline bytes_eq
level_lines = refl

level_whole : All IsLine (codes "enabled=0" ∷ codes "log_level=warn" ∷ [])
level_whole = omega arith

level_StaysWhole : StaysWhole level_key (codes "warn") (added enabled_key (codes "0") none)
level_StaysWhole =
    rw enabled_file
      (λ out e. subst (All IsLine) (some-injective _ _ (sym level_lines ∙ e)) level_whole)

load_conf-set_example :
    let r = load_conf (record lcd {
      conf_file =
          (set_log_level log_warn true complete
            (set_enabled_persist false complete mqtt)).conf_file;
    }) in
    (r.enabled ≡ false)
    × (r.log_level ≡ log_warn)
    × (r.applied ≡ some log_warn)
    × (r.state ≡ stopped)
load_conf-set_example =
    load_conf-set false log_warn mqtt lcd _
      (λ out e. subst (All IsLine) (some-injective _ _ (sym enabled_lines ∙ e)) enabled_whole)
      level_StaysWhole
