-- ===== src/Vm/Taps.antt =====
-- The tap interfaces of vm.c. The calls of tap.c are ioctl(2) requests, whose answers come in.
use bmd.Prelude.{Bool, true, false, Option, List, [], ◌∷◌, ◌&&◌, Str, map, if◌then◌else◌, is_some}
use bmd.Conf.{NetConf, VmConf}
use bmd.Conf.Create.{copy_net_conf}
use bmd.Vm.{Vm}

-- The answers for one interface: its name if it was created, and whether it could be described
-- and added to the bridge.
pub record TapReply : Type 0 where
  pub created : Option Str
  pub described : Bool
  pub bridged : Bool

-- `open` says whether socket(2) gave a socket.
unfoldable pub remove_taps : Bool → Vm → Bool × Vm
remove_taps true vm = (true, record vm { taps = [] })
remove_taps false vm = (false, vm)

unfoldable pub activate_taps : Bool → Bool
activate_taps socket = socket

-- The name that create_tap stores, if the interface was created.
name_tap : NetConf → TapReply → NetConf
name_tap nc r = if is_some r.created then record nc { tap = r.created } else nc

-- The loop over the new interfaces: whether all could be made, and the queue that it leaves. The
-- replies are those for the interfaces in order; where one is missing the creation fails.
unfoldable pub create_taps : List NetConf → List TapReply → Bool × List NetConf
unfolding name_tap
create_taps [] rs = (true, [])
create_taps (nc ∷ ncs) [] = (false, nc ∷ ncs)
create_taps (nc ∷ ncs) (r ∷ rs) =
    let (done, rest) = create_taps ncs rs in
    if is_some r.created && r.described && r.bridged
    then (done, name_tap nc r ∷ rest)
    else (false, name_tap nc r ∷ ncs)

-- The answers to one call of assign_taps: the socket, the interfaces, and the socket of the
-- remove_taps that follows a failure.
pub record TapEnv : Type 0 where
  pub socket : Bool
  pub replies : List TapReply
  pub undo : Bool

has_taps : List NetConf → Bool
has_taps [] = false
has_taps (t ∷ ts) = true

finish_taps : Bool → Vm → Bool × List NetConf → Bool × Vm
unfolding remove_taps
finish_taps undo vm (true, taps) = (true, record vm { taps = taps })
finish_taps undo vm (false, taps) = (false, (remove_taps undo (record vm { taps = taps })).1)

unfoldable pub assign_taps : TapEnv → VmConf → Vm → Bool × Vm
unfolding copy_net_conf create_taps finish_taps has_taps
assign_taps env conf vm =
    let copies = map copy_net_conf conf.nets in
    if has_taps vm.taps
    then (true, vm)
    else if env.socket
    then finish_taps env.undo vm (create_taps copies env.replies)
    else (false, record vm { taps = [] })
