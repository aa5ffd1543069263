-- ===== src/Server/Commands/Down.antt =====
-- What bringing a machine down does to the list of machines.
use bmd.Prelude.{
  ℕ, ◌≡◌, refl, sym, ap, true, false, ◌==◌, none, some, List, [], ◌∷◌, Str, codes, str_eq,
  Bool-cases, inl, inr, arith,
}
use bmd.Conf.Nv.{NvList, empty}
use bmd.Vm.{State}
use bmd.Daemon.{VmConfEntry, VmEntry, World, Daemon}
use bmd.Daemon.Entries.{lookup_vm_by_name, put_vm}
use bmd.Daemon.Loop.{find_vm}
use bmd.Server.Commands.Allowed.{with_vm_allowed}
use bmd.Server.Commands.{is_live, How, take_down, vm_down_command}
use bmd.Server.Requests.{Xucred, CommandEnv, get_string, check_owner, answer}

==_self : (a b : ℕ) → a ≡ b → (a == b) ≡ true
==_self a b h = ground arith

lookup_name :
    (es : List VmEntry) (name : Str) (e : VmEntry)
    → lookup_vm_by_name es name ≡ some e
    → str_eq e.conf.conf.name name ≡ true
unfolding lookup_vm_by_name
lookup_name [] name e h = cc
lookup_name (x ∷ xs) name e h = elim (Bool-cases (str_eq x.conf.conf.name name)) [
  | inl hx ↦ let found : some x ≡ some e = cc (hx, h) in cc (hx, found)
  | inr hx ↦ lookup_name xs name e (cc (hx, h))
]

-- A write to the machine that a name denotes is seen under the name.
pub lookup-put_vm :
    (es : List VmEntry) (name : Str) (e e' : VmEntry)
    → lookup_vm_by_name es name ≡ some e
    → find_vm es (some e.addr) ≡ some e
    → e'.addr ≡ e.addr
    → e'.conf.conf.name ≡ e.conf.conf.name
    → lookup_vm_by_name (put_vm e' es) name ≡ some e'
unfolding lookup_vm_by_name find_vm put_vm
lookup-put_vm [] name e e' h f place same = cc
lookup-put_vm (x ∷ xs) name e e' h f place same = elim (Bool-cases (str_eq x.conf.conf.name name)) [
  | inl hx ↦
      let found : some x ≡ some e = cc (hx, h) in
      let here : (x.addr == e'.addr) ≡ true = ==_self x.addr e'.addr (cc (found, place)) in
      let seen : str_eq e'.conf.conf.name name ≡ true = cc (hx, found, same) in rw (here, seen) refl
  | inr hx ↦ elim (Bool-cases (x.addr == e.addr)) [
    | inl ha ↦
        let found : some x ≡ some e = cc (ha, f) in
        let wrong : str_eq x.conf.conf.name name ≡ true =
          cc (found, lookup_name (x ∷ xs) name e h) in
        cc (wrong, hx)
    | inr ha ↦
        let apart : (x.addr == e'.addr) ≡ false = cc (ha, place) in
        rw (apart, hx) (lookup-put_vm xs name e e' (cc (hx, h)) (cc (ha, f)) place same)
  ]
]

take_down_same :
    (how : How) (x : CommandEnv) (e : VmEntry) (w : World)
    → ((take_down how x e w).0.addr ≡ e.addr) × ((take_down how x e w).0.conf ≡ e.conf)
unfolding take_down
take_down_same how x e w = ground arith

-- What is promised of the machine after the command.
abbrev pub down_state : How → State → State
down_state How.reset st = st
down_state _ State.load = State.stop
down_state _ State.run = State.stop
down_state _ st = st

taken_down :
    (how : How) (x : CommandEnv) (e : VmEntry) (w : World)
    → is_live e.vm.state ≡ true
    → (take_down how x e w).0.vm.state ≡ down_state how e.vm.state
unfolding take_down
taken_down how x e w h = ground arith

not_live : (how : How) (st : State) → is_live st ≡ false → down_state how st ≡ st
not_live how st h = ground arith

-- The machine that a name denotes has this state.
abbrev pub IsInState : Daemon → Str → State → Type 0
IsInState d name st =
    (e : VmEntry) × (lookup_vm_by_name d.vm_list name ≡ some e) × (e.vm.state ≡ st)

-- A peer who may use a machine and asks for its shutdown, reset or power off is told of no error.
-- Afterwards the machine of that name is in the state STOP if it was loading or running and the
-- command is not a reset; otherwise its state is as before. The machine is the one on the list
-- under its address.
pub vm_down_command-IsInState :
    (x : CommandEnv) (how : How) (nv : NvList) (peer : Xucred) (d : Daemon) (name : Str)
    (e : VmEntry)
    → get_string nv (codes "name") ≡ some name
    → lookup_vm_by_name d.vm_list name ≡ some e
    → find_vm d.vm_list (some e.addr) ≡ some e
    → check_owner e.conf.conf peer ≡ true
    → ((vm_down_command x how nv peer d).0 ≡ answer empty none)
      × IsInState (vm_down_command x how nv peer d).1 name (down_state how e.vm.state)
unfolding vm_down_command
vm_down_command-IsInState x how nv peer d name e asked found place allowed =
    let (e', w) = take_down how x e d.world in
    let same = take_down_same how x e d.world in
    let written =
      lookup-put_vm d.vm_list name e e' found place same.0
        (ap (λ (c : VmConfEntry). c.conf.name) same.1) in
    rw (with_vm_allowed peer nv _ d name e asked found allowed)
      (elim (Bool-cases (is_live e.vm.state)) [
        | inl live ↦ rw live (refl, (e', written, taken_down how x e d.world live))
        | inr idle ↦ rw idle (refl, (e, found, sym (not_live how e.vm.state idle)))
      ])
