-- ===== src/Hosts/Slots.antt =====
-- The counter updates of runtime_host_concurrency.go (incrementRuntimeHostReserved and its three
-- siblings). The decrements test for 0 first, which is what `-` on the numbers does.
use yuex.Prelude.{◌+◌, ◌-◌, if◌then◌else◌}
use yuex.Hosts.Types.{Slots, ExecutionScope, is_product_thread}

unfoldable pub increment_reserved : Slots → ExecutionScope → Slots
increment_reserved s scope =
    if is_product_thread scope
    then record s {
      reserved_runs = s.reserved_runs + 1;
      reserved_product_thread_runs = s.reserved_product_thread_runs + 1;
    }
    else record s {
      reserved_runs = s.reserved_runs + 1;
      reserved_detached_task_runs = s.reserved_detached_task_runs + 1;
    }

unfoldable pub decrement_reserved : Slots → ExecutionScope → Slots
decrement_reserved s scope =
    if is_product_thread scope
    then record s {
      reserved_runs = s.reserved_runs - 1;
      reserved_product_thread_runs = s.reserved_product_thread_runs - 1;
    }
    else record s {
      reserved_runs = s.reserved_runs - 1;
      reserved_detached_task_runs = s.reserved_detached_task_runs - 1;
    }

unfoldable pub increment_active : Slots → ExecutionScope → Slots
increment_active s scope =
    if is_product_thread scope
    then record s {
      active_runs = s.active_runs + 1;
      active_product_thread_runs = s.active_product_thread_runs + 1;
    }
    else record s {
      active_runs = s.active_runs + 1;
      active_detached_task_runs = s.active_detached_task_runs + 1;
    }

unfoldable pub decrement_active : Slots → ExecutionScope → Slots
decrement_active s scope =
    if is_product_thread scope
    then record s {
      active_runs = s.active_runs - 1;
      active_product_thread_runs = s.active_product_thread_runs - 1;
    }
    else record s {
      active_runs = s.active_runs - 1;
      active_detached_task_runs = s.active_detached_task_runs - 1;
    }

-- The zero value that a missing map entry reads as.
abbrev pub no_slots : Slots
no_slots = record {
  active_runs = 0;
  reserved_runs = 0;
  active_product_thread_runs = 0;
  reserved_product_thread_runs = 0;
  active_detached_task_runs = 0;
  reserved_detached_task_runs = 0;
}
