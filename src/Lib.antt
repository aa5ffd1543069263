-- ===== src/Lib.antt =====
-- A model of bmd, the Bhyve Management Daemon for FreeBSD, and of what makes it correct.
--
-- bmd reads a configuration file (parser.c, confparse.y, conflex.l), keeps one configuration per
-- virtual machine (conf.c, conf.h), and runs each machine as a child process of a backend (vm.c).
-- The daemon (bmd.c) is one loop over kevent(2): each event has a callback, which changes the list
-- of machines and the list of events. bmdctl (control.c) speaks to it over a socket (server.c).
--
-- The files:
-- - Prelude and its children: Boolean tests and lists over native numbers, signed integers, C
--   strings as lists of bytes with strcmp(3) and its kin, numbers as printf(3) writes them.
-- - Conf: the records of conf.h. Conf/Setters and Conf/Create: the functions of conf.c that fill a
--   configuration, with the list of identifiers (Conf/Create/Ids). Conf/Vars: the variables of a
--   configuration and their scopes. Conf/Compare: compare_vm_conf and its parts. Conf/Nv:
--   name/value lists and compare_nvlist.
-- - Vm: a machine, and the methods of a backend (struct vm_method of bmd_plugin.h). Vm/Bhyve: the
--   bhyve backend of vm.c. Vm/Args, Vm/Split and Vm/Loaders: the arguments of bhyve and its loaders.
--   Vm/ErrLog: the log of the output. Vm/Taps: the tap interfaces.
-- - Daemon: the entries, the events and the state that all handlers share. Daemon/Events: the
--   event list. Daemon/Comport: the null modem devices. Daemon/Machine: the start and the stop of
--   one machine, its timer and its exit. Daemon/Entries: the list of machines and create_vm_entry.
--   Daemon/Reload: the start of all machines and reload_virtual_machines. Daemon/Loop: one round of
--   event_loop, and stop_virtual_machines.
-- - Server: the command server of server.c. Server/Requests: requests, responses and the test of the
--   peer. Server/Commands: the commands on one machine. Server/Dispatch: the table of commands, the
--   list, and recv_command. Server/Idle: the time-outs of the sockets. Server/Sockets: the callbacks
--   of bmd.c for a connection.
--   Server/SockBuf: the buffers that a request is received into and a response is sent from.
-- - Parser: parser.c. Parser/Mpool: the memory pool that the grammar's objects are allocated in.
--   Parser/Numbers: strtol(3) and parse_int. Parser/Values, Parser/Owner: the parse functions of the
--   parameters. Parser/Params: the table of parameters and the assignment of one.
--   Parser/Expr: the arithmetic of the file.
--   Parser/Tokens: the text of tokens. Parser/Sections: the parameters of a machine, the templates and
--   the plugins' parameters. Parser/Globals: the global sections. Parser/Files and Parser/Parse: the
--   list of files, and the child that parses one. Parser/Load and Parser/ConfigFile:
--   load_config_file.
-- - Inspect: inspect.c and inspect_grub.c. Inspect/Names: the names that are looked for.
--   Inspect/Disk: disk images, and inspect as a whole. Inspect/Held: the rules for what is attached
--   and mounted. Inspect/Grub: the search with grub, its control sequences (Inspect/Grub/Csi) and the
--   disks that it lists (Inspect/Grub/Disks).
-- - Control: control.c, the arguments of bmdctl and what its `inspect` prints.
-- - Global: the settings of global.c.
-- - Tests: concrete runs, and the theorems at concrete inputs.
--
-- How state is modelled. A pointer to an entry or an event is its address, a number; the daemon's
-- lists hold the objects, and a pointer to an object that is not on its list dangles. A NULL
-- pointer, or a descriptor that is -1, is `none`. The queue of passed-through devices, which create_vm_conf does
-- not initialise, keeps whether its end is a NULL pointer (QueueTail). Each handler takes the objects that it changes and
-- the shared World, and returns them. What the operating system answers (fork(2), pipe(2),
-- kevent(2), stat(2), scandir(3), the ioctl(2) requests of tap.c) comes in as a record: Spawn,
-- TapEnv and Env. Signals and power off requests that the daemon sends are kept in a list.
--
-- Integers. An `int` is an integer; where differences of integers are stored in an `int`, and in the
-- numbers of null modem devices, the model wraps at 32 bits (to_int), and the arithmetic on a `long`
-- at 64 (to_long). Identifiers wrap at 32
-- bits. Timer numbers and addresses do not wrap. Most loops follow a list; the printing of a number
-- is bounded by the number itself. Fuel bounds the depth of templates that apply one another, of
-- which each is applied once, so that their number is enough, the number of configuration files, and
-- strip_csi, each of whose rounds takes a byte at least. The rounds of `parse` follow the list of
-- blocks that mmap(2) gives. The calls for one message on a socket follow the list of what has
-- arrived before each; the theorems say how long a list is enough.
--
-- What a backend promises is the record IsBackend of Daemon/Machine/Watched: a start that succeeds
-- leaves the machine loading or running, a cleanup leaves it terminated. The bhyve backend of vm.c
-- keeps it (bhyve_method-IsBackend); a plugin's backend is a parameter.
--
-- Not modelled: logging, the free functions, the failure of allocations (but those of the parser's
-- pool), the rest of the children's side of a fork, the callbacks of plugins, the delay of a timer
-- (it goes to the kernel alone), the grammar (the parser that yacc makes of confparse.y is a
-- parameter, with what it does to the memory as hypotheses), the packing of name/value lists, the
-- dialog with the process of grub, bmdctl's dialog with the daemon and the console.
pub mod Prelude
pub mod Global
pub mod Conf
pub mod Vm
pub mod Daemon
pub mod Server
pub mod Parser
pub mod Inspect
pub mod Control
pub mod Tests
