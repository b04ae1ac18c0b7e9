-- ===== src/Channel/Tests.antt =====
-- The theorems on channels at concrete inputs.
use rdma_comm_core.Prelude.{
  ◌≡◌, refl, Bool, true, false, none, some, [], find, insert, erase, get_elem?, arith, Outcome, ok,
  fault,
}
use rdma_comm_core.Samples.{verbs, host, idle, block}
use rdma_comm_core.Buffer.{Block, Buffer}
use rdma_comm_core.Device.MemoryRegion.{real_register_mem, real_deregister_mem}
use rdma_comm_core.Adapter.Transfer.Bounds.{IsPostable}
use rdma_comm_core.Channel.{
  Host, share, register_mem, deregister_mem, register_in_channel, register_buffer, remove_buffer,
  deregister_from_channel, destroy_from, destroy_channel,
}
use rdma_comm_core.Channel.Registry.{IsRegistry}
use rdma_comm_core.Channel.Register.{register_buffer-IsRegistry}
use rdma_comm_core.Channel.Deregister.{deregister_from_channel-IsRegistry, destroy_channel_empty}
use rdma_comm_core.Channel.Lifetime.{register-deregister, deregister_stale}

abbrev or_host : Outcome Host → Host
or_host (ok h) = h
or_host (fault f) = host

abbrev or_left : Outcome (Bool × Host) → Bool × Host
or_left (ok r) = r
or_left (fault f) = (true, host)

-- The host after a registration of the buffer at 60, and after it was let go.
entered : Host
entered = or_host (register_buffer verbs 60 host)

left : Bool × Host
left = or_left (deregister_from_channel verbs 60 entered)

entered_returns : register_buffer verbs 60 host ≡ ok entered
unfolding entered register_buffer register_in_channel register_mem real_register_mem share find
    insert
entered_returns = refl

left_returns : deregister_from_channel verbs 60 entered ≡ ok (left.0, left.1)
unfolding left entered register_buffer register_in_channel register_mem real_register_mem share find
    insert deregister_from_channel deregister_mem real_deregister_mem remove_buffer erase
left_returns = refl

host-IsRegistry : IsRegistry host
unfolding find
host-IsRegistry key p e = absurd (ground arith)

register_buffer-IsRegistry_example : IsRegistry entered
register_buffer-IsRegistry_example =
    register_buffer-IsRegistry verbs 60 host entered host-IsRegistry entered_returns

entered-IsRegistry : IsRegistry entered
entered-IsRegistry =
    register_buffer-IsRegistry verbs 60 host entered host-IsRegistry entered_returns

deregister_from_channel-IsRegistry_example : IsRegistry left.1
deregister_from_channel-IsRegistry_example =
    deregister_from_channel-IsRegistry verbs 60 entered left.1 left.0 entered-IsRegistry
      left_returns

destroy_channel_empty_example : (host.channel.owning_buffers ≡ []) × (host ≡ host)
unfolding destroy_channel destroy_from
destroy_channel_empty_example = destroy_channel_empty verbs host host host-IsRegistry refl

register-deregister_example : find "three" left.1.channel.owning_buffers ≡ none
unfolding find
register-deregister_example =
    register-deregister verbs 60 host entered left.1 left.0 entered_returns left_returns "three"

deregister_stale_example :
    (b'' : Buffer) × (s'' : Block) × (left.1.buffers 60 ≡ some b'')
    × (b''.mr ≡ 0)
    × (get_elem? b''.buffer_mgr 1 ≡ some s'')
    × IsPostable s''
deregister_stale_example =
    deregister_stale verbs 60 host entered left.1 left.0 1 idle (block 1 false) entered_returns
      left_returns (omega arith) refl refl (omega arith) (omega arith)
