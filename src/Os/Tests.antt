-- ===== src/Os/Tests.antt =====
-- The interrupt handlers at a concrete state, with a log of what they call, latest first.
use ipc_shm.Common.{
  ℕ, ◌+◌, ◌≡◌, refl, Bool, true, false, ◌||◌, none, some, List, [], ◌∷◌, ◌++◌, ltb, ◌==◌,
  if◌then◌else◌, update,
}
use ipc_shm.Os.{OsInstance, OsState, Calls, softirq, hardirq}
use ipc_shm.Os.View.{View}

-- Instances 0 and 2 are enabled and have an interrupt; instance 2 has work left.
abbrev instance_of : ℕ → OsInstance
instance_of i = record {
  shm_size = 4096;
  local_phys_shm = 0;
  remote_phys_shm = 0;
  local_virt_shm = 4096;
  remote_virt_shm = 8192;
  irq_num = if i == 1 then none else some (40 + i);
  is_enabled = ltb i 3;
  rx_cb = 77;
}

abbrev calls : Calls (List ℕ)
calls = record {
  rx = λ st cb i b. (if i == 2 then b else 3, st);
  irq_enable = λ s i. (100 + i) ∷ s;
  irq_disable = λ s i. (200 + i) ∷ s;
  irq_clear = λ s i. (300 + i) ∷ s;
  tasklet_schedule = λ s. 400 ∷ s;
}

abbrev quiet_state : OsState (List ℕ)
quiet_state = record { instances = instance_of; rest = [] }

softirq_log : (softirq calls quiet_state).rest ≡ 102 ∷ 400 ∷ 100 ∷ 100 ∷ []
unfolding softirq
softirq_log = refl

hardirq_log : (hardirq calls quiet_state).rest ≡ 400 ∷ 302 ∷ 202 ∷ 300 ∷ 200 ∷ []
unfolding hardirq
hardirq_log = refl

-- the interrupts, the receptions and the tasklet
record Lines : Type 0 where
  masked : ℕ → Bool
  pending : ℕ → Bool
  receptions : List (ℕ × ℕ × ℕ)
  scheduled : ℕ

abbrev lines : Calls Lines
lines = record {
  rx = λ st cb i b. (
    if i == 2 then b else 3,
    record st { rest = record st.rest { receptions = st.rest.receptions ++ ((cb, i, b) ∷ []) } },
  );
  irq_enable = λ s i. record s { masked = update s.masked i false };
  irq_disable = λ s i. record s { masked = update s.masked i true };
  irq_clear = λ s i. record s { pending = update s.pending i false };
  tasklet_schedule = λ s. record s { scheduled = s.scheduled + 1 };
}

-- The interrupts of the instances 0 and 2 are pending.
abbrev raised : OsState Lines
raised = record {
  instances = instance_of;
  rest = record {
    masked = λ _. false;
    pending = λ h. (h == 0) || (h == 2);
    receptions = [];
    scheduled = 0;
  };
}
