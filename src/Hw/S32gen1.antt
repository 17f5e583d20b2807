-- ===== src/Hw/S32gen1.antt =====
-- hw/s32gen1: four A53 and three M7 cores, three inter-core interrupts.
use ipc_shm.Common.{ℕ, Option, none, some, ◌==◌, if◌then◌else◌}
use ipc_shm.Hw.{Chip}

-- the processor ids of the A53 cores, by IPC_CORE_INDEX_n
abbrev pub a53 : ℕ → Option ℕ
a53 index =
    if index == 0x01
    then some 0
    else if index == 0x02
    then some 1
    else if index == 0x04
    then some 2
    else if index == 0x08
    then some 3
    else none

abbrev pub m7 : ℕ → Option ℕ
m7 index =
    if index == 0x01
    then some 4
    else if index == 0x02
    then some 5
    else if index == 0x04
    then some 6
    else none

-- the MSI of an inter-core interrupt
abbrev pub msi : ℕ → Option ℕ
msi n = if n == 0 then some 0 else if n == 1 then some 1 else if n == 2 then some 2 else none

-- its index among the shared peripheral interrupts
abbrev pub spi : ℕ → Option ℕ
spi n = if n == 0 then some 1 else if n == 1 then some 2 else if n == 2 then some 3 else none

abbrev pub a53_tr : ℕ
a53_tr = 0x0f

-- IPC_MSCM_CP_COUNT, IPC_MSCM_IRQ_COUNT, IPC_MSCM_IRSPRC_COUNT
abbrev pub cp_count : ℕ
cp_count = 7

abbrev pub irq_count : ℕ
irq_count = 4

abbrev pub irsprc_count : ℕ
irsprc_count = 240

abbrev pub chip : Chip
chip = record {
  a53 = a53;
  m7 = m7;
  default_local_core = 0;
  default_remote_core = 4;
  trust_cores = λ trusted. trusted;
  a53_tr = a53_tr;
  msi = msi;
  spi = spi;
}
