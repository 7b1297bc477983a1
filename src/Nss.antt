-- ===== src/Nss.antt =====
-- src/nss: the name service modules keep a struct as the data of a record, its numbers in network
-- byte order and its strings one behind the other, and decode it into the caller's buffer.
pub mod Segments
pub mod Grouplist
pub mod Groupmem
pub mod Write
pub mod Session
pub mod Passwd
use mcdb.Base.{ℕ, ◌+◌, ◌*◌, ◌^◌, List, ◌++◌, length, [], ◌∷◌}
use mcdb.Base.Memory.{Memory, load, store}
use mcdb.Plasma.{be_bytes, be_value}

-- nss_status_t; NSS_STATUS_TRYAGAIN comes with errno ERANGE.
pub data NssStatus : Type 0 where
  success : NssStatus
  notfound : NssStatus
  tryagain : NssStatus
  unavail : NssStatus

-- The bytes in memory of htonl(u) and htons(u), and ntohl and ntohs of those at address `a`.
abbrev pub htonl : ℕ → List ℕ
htonl u = be_bytes 4 u

abbrev pub htons : ℕ → List ℕ
htons u = be_bytes 2 u

abbrev pub ntohl : Memory → ℕ → ℕ
ntohl mem a = be_value 0 (load mem a 4)

abbrev pub ntohs : Memory → ℕ → ℕ
ntohs mem a = be_value 0 (load mem a 2)

-- A string with its final '\0', whose size is 1 + strlen(s).
abbrev pub c_str : List ℕ → List ℕ
c_str s = s ++ (0 ∷ [])
