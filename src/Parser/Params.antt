-- ===== src/Parser/Params.antt =====
-- The table of parameters of parser.c, and the assignment of a parameter of a virtual machine.
pub mod Queues
use bmd.Prelude.{
  ℕ, ℤ, Bool, true, false, not, Option, none, some, List, [], ◌∷◌, Str, codes, case_eq,
  if◌then◌else◌,
}
use bmd.Conf.{Fbuf, VmConf}
use bmd.Conf.Setters
use bmd.Conf.Setters.{
  set_bhyveload_loader, set_boot_delay, set_comport, set_debug_port, set_err_logfile,
  set_grub_run_partition, set_install, set_installcmd, set_keymap, set_loadcmd, set_loader_timeout,
  set_reboot_on_change, set_stop_timeout, set_utctime, set_wired_memory, set_mouse, set_fbuf_enable,
  set_fbuf_ipaddr, set_fbuf_port, set_fbuf_vgaconf, set_fbuf_password, set_fbuf_wait,
}
use bmd.Conf.Create.{
  clear_passthru_conf, clear_disk_conf, clear_iso_conf, clear_net_conf, clear_bhyveload_env,
  clear_bhyve_env,
}
use bmd.Parser.Numbers.{parse_int}
use bmd.Parser.Values.{
  ParserEnv, parse_name, parse_ncpu, parse_memory, parse_passthru, parse_disk, parse_iso, parse_net,
  parse_loader, parse_bhyveload_env, parse_bhyve_env, parse_boolean, parse_boot, parse_hostbridge,
  parse_backend, parse_graphics_res,
}
use bmd.Parser.Owner.{parse_owner}

-- The functions of parser.c that only call a setter: with the text, with a number, and with a
-- truth value.
unfoldable pub stored : {A : Type 0} → (A → Str → A) → A → Str → Option A
stored set a val = some (set a val)

pub store_number : {A : Type 0} → (A → ℤ → A) → A → Option ℤ → Option A
store_number set a none = none
store_number set a (some n) = some (set a n)

unfoldable pub number : {A : Type 0} → (A → ℤ → A) → A → Str → Option A
unfolding parse_int store_number
number set a val = store_number set a (parse_int val)

unfoldable pub flag : {A : Type 0} → (A → Bool → A) → A → Str → Option A
unfolding parse_boolean
flag set a val = some (set a (parse_boolean val))

pub put_fbuf : VmConf → Option Fbuf → Option VmConf
put_fbuf conf none = none
put_fbuf conf (some fb) = some (record conf { fbuf = fb })

unfoldable pub on_fbuf : (Fbuf → Str → Option Fbuf) → VmConf → Str → Option VmConf
unfolding put_fbuf
on_fbuf parse conf val = put_fbuf conf (parse conf.fbuf val)

pub record ParserEntry : Type 0 where
  pub name : Str
  pub parse : VmConf → Str → Option VmConf
  pub clear : Option (VmConf → VmConf)

unfoldable pub parser_list : ParserEnv → List ParserEntry
parser_list x =
    record { name = codes "backend"; parse = parse_backend x; clear = none }
    ∷ record { name = codes "bhyve_env"; parse = parse_bhyve_env; clear = some clear_bhyve_env }
    ∷ record {
      name = codes "bhyveload_env";
      parse = parse_bhyveload_env;
      clear = some clear_bhyveload_env;
    }
    ∷ record { name = codes "bhyveload_loader"; parse = stored set_bhyveload_loader; clear = none }
    ∷ record { name = codes "boot"; parse = parse_boot; clear = none }
    ∷ record { name = codes "boot_delay"; parse = number set_boot_delay; clear = none }
    ∷ record { name = codes "comport"; parse = stored set_comport; clear = none }
    ∷ record { name = codes "debug_port"; parse = stored set_debug_port; clear = none }
    ∷ record { name = codes "disk"; parse = parse_disk; clear = some clear_disk_conf }
    ∷ record { name = codes "err_logfile"; parse = stored set_err_logfile; clear = none }
    ∷ record { name = codes "graphics"; parse = on_fbuf (flag set_fbuf_enable); clear = none }
    ∷ record {
      name = codes "graphics_listen";
      parse = on_fbuf (stored set_fbuf_ipaddr);
      clear = none;
    }
    ∷ record {
      name = codes "graphics_password";
      parse = on_fbuf (stored set_fbuf_password);
      clear = none;
    }
    ∷ record { name = codes "graphics_port"; parse = on_fbuf (number set_fbuf_port); clear = none }
    ∷ record { name = codes "graphics_res"; parse = on_fbuf parse_graphics_res; clear = none }
    ∷ record {
      name = codes "graphics_vga";
      parse = on_fbuf (stored set_fbuf_vgaconf);
      clear = none;
    }
    ∷ record { name = codes "graphics_wait"; parse = on_fbuf (flag set_fbuf_wait); clear = none }
    ∷ record {
      name = codes "grub_run_partition";
      parse = stored set_grub_run_partition;
      clear = none;
    }
    ∷ record { name = codes "hostbridge"; parse = parse_hostbridge; clear = none }
    ∷ record { name = codes "install"; parse = flag set_install; clear = none }
    ∷ record { name = codes "installcmd"; parse = stored set_installcmd; clear = none }
    ∷ record { name = codes "iso"; parse = parse_iso; clear = some clear_iso_conf }
    ∷ record { name = codes "keymap"; parse = stored set_keymap; clear = none }
    ∷ record { name = codes "loadcmd"; parse = stored set_loadcmd; clear = none }
    ∷ record { name = codes "loader"; parse = parse_loader; clear = none }
    ∷ record { name = codes "loader_timeout"; parse = number set_loader_timeout; clear = none }
    ∷ record { name = codes "memory"; parse = parse_memory; clear = none }
    ∷ record { name = codes "name"; parse = parse_name; clear = none }
    ∷ record { name = codes "ncpu"; parse = parse_ncpu; clear = none }
    ∷ record { name = codes "network"; parse = parse_net; clear = some clear_net_conf }
    ∷ record { name = codes "owner"; parse = parse_owner x; clear = none }
    ∷ record { name = codes "passthru"; parse = parse_passthru; clear = some clear_passthru_conf }
    ∷ record { name = codes "reboot_on_change"; parse = flag set_reboot_on_change; clear = none }
    ∷ record { name = codes "stop_timeout"; parse = number set_stop_timeout; clear = none }
    ∷ record { name = codes "utctime"; parse = flag set_utctime; clear = none }
    ∷ record { name = codes "wired_memory"; parse = flag set_wired_memory; clear = none }
    ∷ record { name = codes "xhci_mouse"; parse = flag set_mouse; clear = none }
    ∷ []

-- bsearch(3) over the table, which is sorted by name.
unfoldable pub find_parser : List ParserEntry → Str → Option ParserEntry
unfolding case_eq
find_parser [] key = none
find_parser (e ∷ es) key =
    let rest = find_parser es key in if case_eq key e.name then some e else rest

-- A value that is refused is reported and leaves the configuration.
unfoldable pub keep_old : VmConf → Option VmConf → VmConf
keep_old conf none = conf
keep_old conf (some conf') = conf'

pub set_values : (VmConf → Str → Option VmConf) → VmConf → List Str → VmConf
unfolding keep_old
set_values parse conf [] = conf
set_values parse conf (v ∷ vs) = set_values parse (keep_old conf (parse conf v)) vs

unfoldable pub clear_with : Option (VmConf → VmConf) → Bool → VmConf → VmConf
clear_with none append conf = conf
clear_with (some clear) append conf = if append then conf else clear conf

-- A key that the table lacks goes to the plugins.
pub set_with : Option ParserEntry → VmConf → Bool → List Str → VmConf
unfolding clear_with set_values
set_with none conf append vals = conf
set_with (some e) conf append vals = set_values e.parse (clear_with e.clear append conf) vals

-- One parameter of vm_conf_set_params that is neither a variable nor `.apply`. `append` is the
-- operator `+=`; `vals` are the values with their variables and expressions put in.
unfoldable pub set_param : ParserEnv → VmConf → Str → Bool → List Str → VmConf
unfolding parser_list find_parser set_with
set_param x conf key append vals = set_with (find_parser (parser_list x) key) conf append vals
