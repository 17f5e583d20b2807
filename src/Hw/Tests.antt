-- ===== src/Hw/Tests.antt =====
-- Two A53 cores of S32G3XX, and a register block that is a log of what was written, latest first.
use ipc_shm.Common.{ℕ, ◌≡◌, refl, sym, arith, none, some, List, [], ◌∷◌, if◌then◌else◌, ◌⊎◌}
use ipc_shm.Types.{ok, einval, ShmCfg, core_a53, core_bbe32}
use ipc_shm.Hw.{
  Reg, ircpcfg, irsprc, ipc_isr, ipc_igr, Mmio, HwState, HwPriv, local_core_of, remote_core_of,
  irq_notify, irq_clear, init_at, hw_init,
}
use ipc_shm.Hw.S32gen1
use ipc_shm.Hw.S32g3xx
use ipc_shm.Hw.S32r47.{R47State, init_hw_at}
use ipc_shm.Hw.S32r47.Bounds.{AllR47InRange, all_r47_in_range, init_hw_at-AllR47InRange}
use ipc_shm.Hw.Arrays.{
  Sizes, has, all_in_range, Covers, Agree, AllInRange, Call, inits, enables, notifies, clears,
  frees, calls,
}
use ipc_shm.Hw.Arrays.Init.{calls_inside}
use ipc_shm.Hw.Outcome.{Configured, Refused, Done, init_at_outcome}
use ipc_shm.Hw.Pairing.{Facing, notify_reaches}

-- a register and what was written to it
pub data Write : Type 0 where
  wrote : Reg → ℕ → Write

abbrev block : Mmio (List Write)
block = record {
  read = λ s base r. 0;
  write = λ s base r v. wrote r v ∷ s;
  map_intc = λ s. (0x4019_8000, s);
  unmap_intc = λ s addr. s;
}

abbrev cold : HwState (List Write)
cold = record {
  priv = λ _. record {
    msi_tx_irq = 0;
    msi_rx_irq = 0;
    spi_index = 0;
    mscm_tx_irq = none;
    mscm_rx_irq = none;
    remote_core = 0;
    local_core = 0;
    ipc_mscm = 0;
  };
  regs = [];
}

-- the configuration of the core with the index `here` that talks to the one with the index `there`
abbrev cfg_of : (here there tx rx : ℕ) → ShmCfg
cfg_of here there tx rx = record {
  local_shm_addr = 0x3420_0000;
  remote_shm_addr = 0x3430_0000;
  shm_size = 0x10_0000;
  inter_core_tx_irq = some tx;
  inter_core_rx_irq = some rx;
  local_core = record { type = core_a53; index = here; trusted = here };
  remote_core = record { type = core_a53; index = there };
  num_channels = 1;
  channels = none;
}

abbrev started : HwState (List Write)
started = (hw_init block S32g3xx.chip cold 0 (cfg_of 0x20 0x02 3 4)).1

started_ok :
    ((hw_init block S32g3xx.chip cold 0 (cfg_of 0x20 0x02 3 4)).0 ≡ ok)
    × (started.regs ≡ wrote ircpcfg 0x200 ∷ wrote (irsprc 23) 0 ∷ [])
unfolding hw_init
started_ok = (refl, refl)

abbrev g3_sizes : Sizes
g3_sizes = record {
  cp_count = S32g3xx.cp_count;
  irq_count = S32g3xx.irq_count;
  irsprc_count = S32g3xx.irsprc_count;
}

g3-Covers : Covers g3_sizes S32g3xx.chip
g3-Covers = record {
  a53 = λ n c e. ground arith;
  m7 = λ n c e. ground arith;
  default_local_core = omega arith;
  default_remote_core = omega arith;
  msi = λ n m e. ground arith;
  spi = λ n l e. ground arith;
}

gen1-Covers :
    Covers
      (record {
        cp_count = S32gen1.cp_count;
        irq_count = S32gen1.irq_count;
        irsprc_count = S32gen1.irsprc_count;
      })
      S32gen1.chip
gen1-Covers = record {
  a53 = λ n c e. ground arith;
  m7 = λ n c e. ground arith;
  default_local_core = omega arith;
  default_remote_core = omega arith;
  msi = λ n m e. ground arith;
  spi = λ n l e. ground arith;
}

-- a block that forgets what is written outside the arrays
abbrev narrow_block : Mmio (List Write)
narrow_block = record block { write = λ s base r v. if has g3_sizes r then wrote r v ∷ s else s }

narrow_agrees : Agree g3_sizes block narrow_block
narrow_agrees = record {
  read = λ s base r e. refl;
  write = λ s base r v e. rw e refl;
  map_intc = λ s. refl;
  unmap_intc = λ s addr. refl;
}

cold_in_range : AllInRange g3_sizes cold
cold_in_range = all_in_range cold (λ i. ground arith)

abbrev some_calls : List (ℕ × Call)
some_calls =
    (0, inits (cfg_of 0x20 0x02 3 4)) ∷ (0, enables) ∷ (0, notifies) ∷ (0, clears) ∷ (0, frees) ∷ []

calls_inside_example :
    (calls block S32g3xx.chip cold some_calls ≡ calls narrow_block S32g3xx.chip cold some_calls)
    × AllInRange g3_sizes (calls block S32g3xx.chip cold some_calls)
calls_inside_example = calls_inside narrow_agrees g3-Covers cold some_calls cold_in_range

init_at_outcome_example :
    Refused cold (init_at block S32g3xx.chip cold 0 (cfg_of 0x20 0x02 3 4) 0x4019_8000)
    ⊎ Done block S32g3xx.chip cold 0
        (cfg_of 0x20 0x02 3 4)
        0x4019_8000
        (init_at block S32g3xx.chip cold 0 (cfg_of 0x20 0x02 3 4) 0x4019_8000)
init_at_outcome_example =
    init_at_outcome block S32g3xx.chip (cfg_of 0x20 0x02 3 4) 0 cold 0x4019_8000

abbrev here_priv : HwPriv
here_priv = record {
  msi_tx_irq = 5;
  msi_rx_irq = 6;
  spi_index = 23;
  mscm_tx_irq = some 3;
  mscm_rx_irq = some 4;
  remote_core = 1;
  local_core = 9;
  ipc_mscm = 0x4019_8000;
}

abbrev there_priv : HwPriv
there_priv = record {
  msi_tx_irq = 6;
  msi_rx_irq = 5;
  spi_index = 22;
  mscm_tx_irq = some 4;
  mscm_rx_irq = some 3;
  remote_core = 9;
  local_core = 1;
  ipc_mscm = 0x4019_8000;
}

abbrev with_priv : HwPriv → HwState (List Write)
with_priv p = record cold { priv = λ _. p }

here-Configured : Configured S32g3xx.chip (cfg_of 0x20 0x02 3 4) 0 here_priv
unfolding local_core_of remote_core_of
here-Configured = record {
  local_core = refl;
  remote_core = refl;
  trusted = refl;
  not_same_irq = refl;
  not_here = omega arith;
  not_local = omega arith;
  tx_irq = refl;
  rx_irq = refl;
  msi_tx = λ n e. let it : 3 ≡ n = cc e in rw (sym it) refl;
  msi_rx = λ n e. let it : 4 ≡ n = cc e in rw (sym it) refl;
  spi = λ n e. let it : 4 ≡ n = cc e in rw (sym it) refl;
}

there-Configured : Configured S32g3xx.chip (cfg_of 0x02 0x20 4 3) 0 there_priv
unfolding local_core_of remote_core_of
there-Configured = record {
  local_core = refl;
  remote_core = refl;
  trusted = refl;
  not_same_irq = refl;
  not_here = omega arith;
  not_local = omega arith;
  tx_irq = refl;
  rx_irq = refl;
  msi_tx = λ n e. let it : 4 ≡ n = cc e in rw (sym it) refl;
  msi_rx = λ n e. let it : 3 ≡ n = cc e in rw (sym it) refl;
  spi = λ n e. let it : 3 ≡ n = cc e in rw (sym it) refl;
}

facing : Facing S32g3xx.chip (cfg_of 0x20 0x02 3 4) (cfg_of 0x02 0x20 4 3) 3
unfolding local_core_of remote_core_of
facing = record { there = refl; back = refl; sent = refl; received = refl }

notify_reaches_example :
    (irq_notify block (with_priv here_priv) 0
      ≡ record (with_priv here_priv) { regs = wrote (ipc_igr 1 5) 1 ∷ [] })
    × (irq_clear block (with_priv there_priv) 0
        ≡ record (with_priv there_priv) { regs = wrote (ipc_isr 1 5) 0x200 ∷ [] })
notify_reaches_example =
    notify_reaches block block S32g3xx.chip (cfg_of 0x20 0x02 3 4) (cfg_of 0x02 0x20 4 3) 3 0 0
      (with_priv here_priv) 0 (with_priv there_priv) 0 facing here-Configured there-Configured

abbrev cold_r47 : R47State (List Write)
cold_r47 = record {
  priv = λ _. record {
    mscm_tx_irq = none;
    mscm_rx_irq = none;
    remote_core = 0;
    local_core = 0;
    ipc_mscm = 0;
  };
  regs = [];
}

-- A DSP core as the remote one may interrupt on the first two only.
abbrev dsp_cfg : ℕ → ShmCfg
dsp_cfg rx = record (cfg_of 0x02 0x01 4 rx) {
  remote_core = record { type = core_bbe32; index = 0x01 };
}

dsp_irqs :
    ((init_hw_at block cold_r47 0 (dsp_cfg 1) 0x4019_8000).0 ≡ ok)
    × ((init_hw_at block cold_r47 0 (dsp_cfg 2) 0x4019_8000).0 ≡ einval)
unfolding init_hw_at
dsp_irqs = (refl, refl)

cold_r47_in_range : AllR47InRange cold_r47
cold_r47_in_range =
    all_r47_in_range cold_r47 (λ i n e. absurd (cc e)) (λ i n e. absurd (cc e)) (λ i. omega arith)
      (λ i. omega arith)

init_hw_at-AllR47InRange_example :
    AllR47InRange (init_hw_at block cold_r47 0 (dsp_cfg 1) 0x4019_8000).1
init_hw_at-AllR47InRange_example =
    init_hw_at-AllR47InRange block cold_r47 0 (dsp_cfg 1) 0x4019_8000 cold_r47_in_range
