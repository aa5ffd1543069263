-- ===== src/Global.antt =====
-- global.c: the settings of the daemon. LOCALBASE is /usr/local, memory is given.
use bmd.Prelude.{ℤ, pos, is_zero, Option, none, some, Str, codes, if◌then◌else◌}

-- A `char *` that is NULL is `none`.
pub record GlobalConf : Type 0 where
  pub config_file : Option Str
  pub plugin_dir : Option Str
  pub vars_dir : Option Str
  pub pid_path : Option Str
  pub cmd_sock_path : Option Str
  pub unix_domain_socket_mode : Option Str
  pub nmdm_offset : ℤ
  pub foreground : ℤ

-- DEFAULT_NMDM_OFFSET of server.h.
abbrev pub default_nmdm_offset : ℤ
default_nmdm_offset = pos 200

abbrev pub gl_conf0 : GlobalConf
gl_conf0 = record {
  config_file = some (codes "/usr/local/etc/bmd.conf");
  plugin_dir = some (codes "/usr/local/libexec/bmd");
  vars_dir = some (codes "/usr/local/var/cache/bmd");
  pid_path = some (codes "/var/run/bmd.pid");
  cmd_sock_path = some (codes "/var/run/bmd.sock");
  unix_domain_socket_mode = none;
  nmdm_offset = default_nmdm_offset;
  foreground = pos 0;
}

-- What calloc(3) gives.
abbrev pub no_global_conf : GlobalConf
no_global_conf = record {
  config_file = none;
  plugin_dir = none;
  vars_dir = none;
  pid_path = none;
  cmd_sock_path = none;
  unix_domain_socket_mode = none;
  nmdm_offset = pos 0;
  foreground = pos 0;
}

-- REPLACE_STR and REPLACE_INT.
pub replace_str : Option Str → Option Str → Option Str
replace_str none old = old
replace_str (some new) old = some new

pub replace_int : ℤ → ℤ → ℤ
replace_int new old = if is_zero new then old else new

-- `foreground` stays.
unfoldable pub merge_global_conf : GlobalConf → GlobalConf → GlobalConf
unfolding replace_str replace_int
merge_global_conf gc gl_conf = record {
  config_file = replace_str gc.config_file gl_conf.config_file;
  plugin_dir = replace_str gc.plugin_dir gl_conf.plugin_dir;
  vars_dir = replace_str gc.vars_dir gl_conf.vars_dir;
  pid_path = replace_str gc.pid_path gl_conf.pid_path;
  cmd_sock_path = replace_str gc.cmd_sock_path gl_conf.cmd_sock_path;
  unix_domain_socket_mode = replace_str gc.unix_domain_socket_mode gl_conf.unix_domain_socket_mode;
  nmdm_offset = replace_int gc.nmdm_offset gl_conf.nmdm_offset;
  foreground = gl_conf.foreground;
}
