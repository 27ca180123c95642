-- ===== src/Hosts/Store.antt =====
-- Access to the repository's maps: the fence tests, and the write of a host's counters.
use yuex.Prelude.{ℕ, Bool, ◌&&◌, ◌||◌, not, none, some, ltb, ◌==◌, is_zero, lookup, insert, Map}
use yuex.Hosts.Types.{Slots, RuntimeHost, Reservation, Dispatch, Fence}

-- validateReservationFence
abbrev pub fence_is_complete : Fence → Bool
fence_is_complete f = not (
    is_zero f.reservation_id
    || is_zero f.runtime_host_id
    || is_zero f.owner_instance_id
    || is_zero f.lease_token_hash
    || ltb f.fencing_token 1)

-- reservationFenceMatches
unfoldable pub reservation_fence_matches : Reservation → Fence → Bool
reservation_fence_matches item f =
    item.reservation_id == f.reservation_id
    && item.runtime_host_id == f.runtime_host_id
    && item.owner_instance_id == f.owner_instance_id
    && item.lease_token_hash == f.lease_token_hash
    && item.fencing_token == f.fencing_token

-- The dispatch tests of the single operations, from the longest to the shortest.
unfoldable pub dispatch_binding_matches : Dispatch → Fence → Bool
dispatch_binding_matches d f =
    d.reservation_id == f.reservation_id
    && d.runtime_host_id == f.runtime_host_id
    && d.fencing_token == f.fencing_token

unfoldable pub dispatch_owner_matches : Dispatch → Fence → Bool
unfolding dispatch_binding_matches
dispatch_owner_matches d f =
    dispatch_binding_matches d f && d.owner_instance_id == f.owner_instance_id

unfoldable pub dispatch_fence_matches : Dispatch → Fence → Bool
unfolding dispatch_owner_matches
dispatch_fence_matches d f = dispatch_owner_matches d f && d.lease_token_hash == f.lease_token_hash

-- host := r.hosts[id]; f(&host); r.hosts[host.RuntimeHostID] = host. On a missing host Go writes a
-- host without a name, under the key "": no operation reads that entry.
unfoldable pub update_slots : (Slots → Slots) → ℕ → Map RuntimeHost → Map RuntimeHost
update_slots f id hosts = elim (lookup id hosts) [
  | none ↦ hosts
  | some host ↦ insert host.runtime_host_id (record host { slots = f host.slots }) hosts
]
