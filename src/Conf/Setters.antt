-- ===== src/Conf/Setters.antt =====
-- The setters of conf.c. A configuration is never NULL and `strdup` succeeds, so each returns 0 and
-- the model returns the new value alone.
use bmd.Prelude.{ℤ, pos, Bool, some, Str, show_int, ltb_ℤ, if◌then◌else◌}
use bmd.Conf.{Boot, HostbridgeType, Fbuf, VmConf}

unfoldable pub set_name : VmConf → Str → VmConf
set_name conf v = record conf { name = v }

unfoldable pub set_loadcmd : VmConf → Str → VmConf
set_loadcmd conf v = record conf { loadcmd = some v }

unfoldable pub set_installcmd : VmConf → Str → VmConf
set_installcmd conf v = record conf { installcmd = some v }

unfoldable pub set_err_logfile : VmConf → Str → VmConf
set_err_logfile conf v = record conf { err_logfile = some v }

unfoldable pub set_loader : VmConf → Str → VmConf
set_loader conf v = record conf { loader = some v }

unfoldable pub set_bhyveload_loader : VmConf → Str → VmConf
set_bhyveload_loader conf v = record conf { bhyveload_loader = some v }

unfoldable pub set_loader_timeout : VmConf → ℤ → VmConf
set_loader_timeout conf v = record conf { loader_timeout = v }

unfoldable pub set_stop_timeout : VmConf → ℤ → VmConf
set_stop_timeout conf v = record conf { stop_timeout = v }

unfoldable pub set_grub_run_partition : VmConf → Str → VmConf
set_grub_run_partition conf v = record conf { grub_run_partition = some v }

unfoldable pub set_debug_port : VmConf → Str → VmConf
set_debug_port conf v = record conf { debug_port = some v }

unfoldable pub set_memory_size : VmConf → Str → VmConf
set_memory_size conf v = record conf { memory = some v }

unfoldable pub set_comport : VmConf → Str → VmConf
set_comport conf v = record conf { comport = some v }

unfoldable pub set_ncpu : VmConf → ℤ → VmConf
set_ncpu conf v = record conf { ncpu = some (show_int v) }

unfoldable pub set_owner : VmConf → ℤ → VmConf
set_owner conf v = record conf { owner = v }

unfoldable pub set_group : VmConf → ℤ → VmConf
set_group conf v = record conf { group = v }

unfoldable pub set_boot : VmConf → Boot → VmConf
set_boot conf v = record conf { boot = v }

unfoldable pub set_hostbridge : VmConf → HostbridgeType → VmConf
set_hostbridge conf v = record conf { hostbridge = v }

unfoldable pub set_backend : VmConf → Str → VmConf
set_backend conf v = record conf { backend = v }

unfoldable pub set_keymap : VmConf → Str → VmConf
set_keymap conf v = record conf { keymap = some v }

unfoldable pub set_boot_delay : VmConf → ℤ → VmConf
set_boot_delay conf v = record conf { boot_delay = v }

unfoldable pub set_reboot_on_change : VmConf → Bool → VmConf
set_reboot_on_change conf v = record conf { reboot_on_change = v }

unfoldable pub set_single_user : VmConf → Bool → VmConf
set_single_user conf v = record conf { single_user = v }

unfoldable pub set_install : VmConf → Bool → VmConf
set_install conf v = record conf { install = v }

unfoldable pub set_mouse : VmConf → Bool → VmConf
set_mouse conf v = record conf { mouse = v }

unfoldable pub set_wired_memory : VmConf → Bool → VmConf
set_wired_memory conf v = record conf { wired_memory = v }

unfoldable pub set_utctime : VmConf → Bool → VmConf
set_utctime conf v = record conf { utctime = v }

-- The common end of the setters of a frame buffer: `enable` becomes true if it is not known.
known : Fbuf → Fbuf
known fb = if ltb_ℤ fb.enable (pos 0) then record fb { enable = pos 1 } else fb

unfoldable pub set_fbuf_enable : Fbuf → Bool → Fbuf
set_fbuf_enable fb b = record fb { enable = if b then pos 1 else pos 0 }

unfoldable pub set_fbuf_ipaddr : Fbuf → Str → Fbuf
unfolding known
set_fbuf_ipaddr fb v = known (record fb { ipaddr = v })

unfoldable pub set_fbuf_port : Fbuf → ℤ → Fbuf
unfolding known
set_fbuf_port fb v = known (record fb { port = v })

unfoldable pub set_fbuf_vgaconf : Fbuf → Str → Fbuf
unfolding known
set_fbuf_vgaconf fb v = known (record fb { vgaconf = v })

unfoldable pub set_fbuf_password : Fbuf → Str → Fbuf
unfolding known
set_fbuf_password fb v = known (record fb { password = some v })

unfoldable pub set_fbuf_res : Fbuf → ℤ → ℤ → Fbuf
unfolding known
set_fbuf_res fb w h = known (record fb { width = w; height = h })

-- This one leaves `enable` alone.
unfoldable pub set_fbuf_wait : Fbuf → Bool → Fbuf
set_fbuf_wait fb v = record fb { wait = v }
