-- ===== src/Os/Service.antt =====
-- What the interrupt handlers do to the instances, the interrupts and the tasklet.
use ipc_shm.Common.{◌+◌, ◌≡◌, true, false, ◌++◌}
use ipc_shm.Types.{max_instances}
use ipc_shm.Os.{OsState, Calls, softirq, hardirq}
use ipc_shm.Os.View.{View, due, SetFor}

-- What the interrupt handler and the deferred one do.
pub record Handled {S : Type 0} {C : Calls S} (V : View C) (st : OsState S) : Type 0 where
  pub now_masked :
      SetFor st.instances 0 max_instances true (V.masked st.rest) (V.masked (hardirq C st).rest)
  pub now_cleared :
      SetFor st.instances 0 max_instances false (V.pending st.rest) (V.pending (hardirq C st).rest)
  pub now_scheduled : V.scheduled (hardirq C st).rest ≡ V.scheduled st.rest + 1
  pub in_order :
      V.receptions (softirq C st).rest ≡ V.receptions st.rest ++ due st.instances 0 max_instances
  pub unmasked :
      SetFor st.instances 0 max_instances false (V.masked st.rest) (V.masked (softirq C st).rest)
