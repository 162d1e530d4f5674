-- ===== src/Tables/Code.antt =====
-- The error codes and the sizes of tables.h.
use ppu_tvi_os.Common.{Option}
use ppu_tvi_os.Common.Always.{Holds}
use ppu_tvi_os.Common.{ℕ}

-- `ParseErrorCode`
pub data ParseErrorCode : Type 0 where
  tables_parse_error tables_parse_ok : ParseErrorCode

-- `TABLES_MAX_NUMBER_OF_PIDS_IN_PAT`
abbrev pub max_pids_in_pat : ℕ
max_pids_in_pat = 20

-- `TABLES_MAX_NUMBER_OF_ELEMENTARY_PID`
abbrev pub max_elementary_pid : ℕ
max_elementary_pid = 20

-- `TABLES_MAX_NUMBER_OF_LTO_DESCRIPTORS`
abbrev pub max_lto_descriptors : ℕ
max_lto_descriptors = 20

-- `TABLES_MAX_NUMBER_OF_TOT_DESCRIPTORS`
abbrev pub max_tot_descriptors : ℕ
max_tot_descriptors = 20

-- What an output pointer shows behind a call.
abbrev pub Out : {A : Type 0} → (A → Type 0) → ParseErrorCode × Option A → Type 0
Out P r = Holds P r.1
